-- ===== src/NanoPay/Payer/Expiry.antt =====
-- nanopay.go: how long a channel of the payer lasts.
use nkn_sdk_go.Base.{
  ℕ, ◌<◌, ◌≡◌, refl, sym, ap, Bool, true, false, leb, ◌||◌, ◌==◌, Bool-cases, inl, inr, arith,
}
use nkn_sdk_go.Base.Int.{ℤ, pos, to_u32}
use nkn_sdk_go.Errors.{ok, ok-injective}
use nkn_sdk_go.Base.Bytes.{Bytes}
use nkn_sdk_go.Action.{lift-eq-ok}
use nkn_sdk_go.NanoPay.{Blockchain, add_u32, sender_expiration_delta}
use nkn_sdk_go.NanoPay.Payer.{NanoPay, create_payer, current_height, is_expired, renew_channel}

module _ {W : Type 0} (chain : Blockchain W) where
  pub create_payer_lem :
      (sender recipient fee : Bytes) (duration : ℤ) (w w' : W) (np : NanoPay W)
      → create_payer chain sender recipient fee duration w ≡ (ok np, w')
      → np.expiration ≡ 0
  unfolding create_payer
  create_payer_lem sender recipient fee duration w w' np e =
      let (hash, o, e1) = lift-eq-ok (chain.to_script_hash recipient) _ w e in
      let (fee_value, o', e2) = lift-eq-ok (chain.parse_amount fee) _ w e1 in
      ap (λ x. x.expiration) (sym (ok-injective (λ i. (e2 i).0)))

  pub current_height_lem :
      (np : NanoPay W) (h : ℤ) (w : W)
      → chain.get_height np.world ≡ (ok h, w)
      → current_height chain np ≡ (ok h, record np { world = w })
  unfolding current_height
  current_height_lem np h w e = cc

  pub renewed :
      (h : ℤ) (np : NanoPay W)
      → is_expired chain h np ≡ true
      → (renew_channel chain h np).amount ≡ pos 0
  unfolding renew_channel
  renewed h np e = rw e refl

  pub no_channel_expired :
      (h : ℤ) (np : NanoPay W) → np.expiration ≡ 0 → is_expired chain h np ≡ true
  no_channel_expired h np e = simp (e)

  pub kept :
      (h : ℤ) (np : NanoPay W) → is_expired chain h np ≡ false → renew_channel chain h np ≡ np
  unfolding renew_channel
  kept h np e = rw e refl

  or_lasts : (b : Bool) (e m : ℕ) → (b || leb e m) ≡ false → m < e
  or_lasts true e m h = cc
  or_lasts false e m h = ground (arith, h)

  pub renew_channel-Lasts :
      (h : ℤ) (np : NanoPay W)
      → add_u32 (to_u32 h) sender_expiration_delta < add_u32 (to_u32 h) np.duration
      → add_u32 (to_u32 h) sender_expiration_delta < (renew_channel chain h np).expiration
  unfolding renew_channel
  renew_channel-Lasts h np d = elim (Bool-cases (is_expired chain h np)) [
    | inl e ↦ rw e d
    | inr e ↦
        rw e (
          or_lasts (np.expiration == 0) np.expiration (add_u32 (to_u32 h) sender_expiration_delta)
            e)
  ]
