-- ===== src/NanoPay/Payment.antt =====
-- nanopay.go: `IncrementAmount` of a payer and `Claim` of the claimer that gets the transaction.
pub mod Paid
mod Tests
use nkn_sdk_go.Base.{
  ℕ, ◌+◌, ◌<◌, ◌≤◌, ◌^◌, ◌%◌, ◌≡◌, refl, sym, ap, ◌∙◌, subst, Bool, true, false, Option, some, none,
  ◌⊎◌, inl, inr, arith,
}
use nkn_sdk_go.Base.Int.{ℤ, pos, ◌+ℤ◌, ◌<ℤ◌, IsInt64, wrap_i64, wrap_i64_lem, to_u32, int_laws}
use nkn_sdk_go.Base.Bytes.{Bytes}
use nkn_sdk_go.Errors.{ok, ok-injective}
use nkn_sdk_go.NanoPay.{
  Blockchain, NanoPayData, add_u32, sender_expiration_delta, receiver_expiration_delta,
}
use nkn_sdk_go.NanoPay.Payer.{NanoPay, is_expired, renew_channel, raise_amount, increment_amount}
use nkn_sdk_go.NanoPay.Payer.Increment.{state_of, increment_amount_lem}
use nkn_sdk_go.NanoPay.Payer.Expiry.{
  current_height_lem, no_channel_expired, renewed, kept, renew_channel-Lasts,
}
use nkn_sdk_go.NanoPay.Claimer.{Claimer, flush, leave_channel, claim}
use nkn_sdk_go.NanoPay.Claimer.Total.{Holds, flush-Keeps, leave_channel-Holds, leave_channel_amount}
use nkn_sdk_go.NanoPay.Claimer.Accepted.{IsUpdate}
use nkn_sdk_go.NanoPay.Claimer.Accepts.{Ready, Switches, claimed, claim_accepts}

module _ {W : Type 0} (chain : Blockchain W) where
  open chain use {Tx}

  -- Neither has a channel yet, or both have the same one, with the same amount.
  abbrev pub InStep : NanoPay W → Claimer chain → Type 0
  InStep np c =
      ((c.id ≡ none) × (c.amount ≡ pos 0) × (np.expiration ≡ 0))
      ⊎ ((c.id ≡ some np.id) × (c.amount ≡ np.amount))

  -- The claimer `c` stays as it is for a channel that is its first one or is not about to expire at the
  -- payer; for a new one, of another number, it leaves its channel after a flush that does not fail.
  abbrev pub Moves : ℤ → NanoPay W → NanoPay W → Claimer chain → Claimer chain → Type 0
  Moves h np np' c after =
      (((c.id ≡ none) ⊎ (is_expired chain h np ≡ false)) × (after ≡ c))
      ⊎ ((is_expired chain h np ≡ true)
          × (i : ℕ) × (f : Claimer chain) × (c.id ≡ some i)
          × (¬ (i ≡ np'.id))
          × (flush chain false c ≡ (ok tt, f))
          × (after ≡ leave_channel chain f))

  -- The payer gets from `np` to `np'` by a transaction that raises the amount by `d` and that the claimer
  -- gets at most two blocks later. New channels last for more than five blocks.
  pub record Payment (np np' : NanoPay W) (c : Claimer chain) (tx : Tx) (d : ℤ) : Type 0 where
    pub delta : Bytes
    pub fee : Bytes
    pub paid : increment_amount chain delta fee np ≡ (ok tx, np')
    pub delta_parsed : chain.parse_amount delta ≡ ok d
    pub positive : pos 0 <ℤ d
    pub height : ℕ
    pub height_world : W
    pub height_known : chain.get_height np.world ≡ (ok (pos height), height_world)
    pub in_range : height + sender_expiration_delta < 2 ^ 32
    pub lasts :
        add_u32 (to_u32 (pos height)) sender_expiration_delta
        < add_u32 (to_u32 (pos height)) np.duration
    pub fits :
        IsInt64
          ((renew_channel chain (pos height) (record np { world = height_world })).amount +ℤ d)
    pub claim_height : ℕ
    pub in_time : claim_height ≤ height + 2
    pub claim_world : W
    pub after : Claimer chain
    pub moves : Moves (pos height) np np' (record c { world = claim_world }) after
    pub ready : Ready chain tx (pos claim_height) claim_world (state_of chain np') c after

  pub incremented :
      (delta fee : Bytes) (np np' : NanoPay W) (tx : Tx) (h d : ℤ) (w : W)
      → increment_amount chain delta fee np ≡ (ok tx, np')
      → chain.get_height np.world ≡ (ok h, w)
      → chain.parse_amount delta ≡ ok d
      → (np' ≡ raise_amount chain d (renew_channel chain h (record np { world = w })))
        × (chain.unpack tx ≡ ok (some (state_of chain np')))
  incremented delta fee np np' tx h d w e g a =
      let (height, d0, np1, e1, ed, enp, unpacked) =
        increment_amount_lem chain delta fee np np' tx e in
      let q = sym e1 ∙ current_height_lem chain np h w g in
      let same_height : height ≡ h = ok-injective (λ i. (q i).0) in
      let same_delta : d0 ≡ d = ok-injective (sym ed ∙ a) in
      (
        enp ∙ (λ i.
            raise_amount chain (same_delta i) (renew_channel chain (same_height i) (q i).1)),
        unpacked,
      )

  pub grown : (a d : ℤ) → pos 0 <ℤ d → a <ℤ (a +ℤ d)
  grown a d p = grind int_laws

  pub regroup : (a b d : ℤ) → a +ℤ (b +ℤ d) ≡ (a +ℤ b) +ℤ d
  regroup a b d = grind int_laws

  pub margin :
      (h k : ℕ)
      → h + sender_expiration_delta < 2 ^ 32
      → k ≤ h + 2
      → add_u32 (to_u32 (pos k)) receiver_expiration_delta
        ≤ add_u32 (to_u32 (pos h)) sender_expiration_delta
  unfolding to_u32
  margin h k b l = omega arith

  -- What the claimer is like in the channel of the transaction: its amount is what the payer's was before
  -- the delta, and its total is as before.
  abbrev pub Carries : NanoPayData → ℤ → Claimer chain → Claimer chain → ℤ → Type 0
  Carries p a c after t =
      Switches chain p c after
      × (a ≡ after.amount)
      × (after.prev_claimed_amount +ℤ after.amount ≡ t)

  pub stays :
      (p : NanoPayData) (a t : ℤ) (c after : Claimer chain)
      → IsUpdate chain p c
      → a ≡ c.amount
      → c.prev_claimed_amount +ℤ c.amount ≡ t
      → after ≡ c
      → Carries p a c after t
  stays p a t c after u e s same = (
    inl (u, same),
    e ∙ ap (λ x. x.amount) (sym same),
    ap (λ x. x.prev_claimed_amount +ℤ x.amount) same ∙ s,
  )

  pub leaves :
      (p : NanoPayData) (t : ℤ) (i : ℕ) (c f after : Claimer chain)
      → c.id ≡ some i
      → ¬ (i ≡ p.id)
      → flush chain false c ≡ (ok tt, f)
      → after ≡ leave_channel chain f
      → c.prev_claimed_amount +ℤ c.amount ≡ t
      → IsInt64 t
      → Carries p (pos 0) c after t
  leaves p t i c f after e n h same s b =
      let before : Holds chain t c = record { total = s; no_channel = λ x. cc } in
      let flushed : Holds chain t f =
        subst (Holds chain t) (λ j. (h j).1) (flush-Keeps chain false t c b before) in
      (
        inr (i, f, e, n, h, same),
        sym (leave_channel_amount chain f) ∙ ap (λ x. x.amount) (sym same),
        ap (λ x. x.prev_claimed_amount +ℤ x.amount) same
            ∙ (leave_channel-Holds chain t f b flushed).total,
      )
