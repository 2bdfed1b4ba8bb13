-- ===== src/NanoPay/Claimer/Unflushed.antt =====
-- nanopay.go: the last transaction of a channel that `Claim` leaves.
use nkn_sdk_go.Base.{
  ℕ, ◌≡◌, refl, sym, ap, ◌∙◌, Bool, true, false, Option, some, none, Bool-cases, ◌==◌, ==_iff, inl,
  inr,
}
use nkn_sdk_go.Errors.{ok}
use nkn_sdk_go.NanoPay.{Blockchain, NanoPayData}
use nkn_sdk_go.NanoPay.Claimer.{
  Claimer, skips, flush, close_on_error, leave_channel, switch_when, switch_from, switch_channel,
  admit, accept, claim,
}
use nkn_sdk_go.NanoPay.Claimer.Accepted.{admit_lem}
use nkn_sdk_go.Action.{>>=-eq-ok}
use nkn_sdk_go.Base.Bytes.{Bytes}
use nkn_sdk_go.Base.Int.{ℤ}

module _ {W : Type 0} (chain : Blockchain W) where
  leave_unflushed :
      (p : NanoPayData) (x : Bool) (y : Bool) (c : Claimer chain)
      → x ≡ false
      → y ≡ skips chain false c
      → y ≡ true
      → switch_when chain x p c ≡ (ok tt, leave_channel chain c)
  unfolding switch_when flush close_on_error
  leave_unflushed p true y c h e l = cc
  leave_unflushed p false y c h e l = rw (sym e ∙ l) refl

  pub switch_lem :
      (p : NanoPayData) (i : ℕ) (o : Option ℕ) (c : Claimer chain)
      → o ≡ some i
      → switch_from chain o p c ≡ switch_when chain (i == p.id) p c
  unfolding switch_from
  switch_lem p i none c e = cc
  switch_lem p i (some j) c e =
      let same : j ≡ i = cc e in ap (λ k. switch_when chain (k == p.id) p c) same

  switch_unflushed :
      (p : NanoPayData) (i : ℕ) (c : Claimer chain)
      → c.id ≡ some i
      → ¬ (i ≡ p.id)
      → skips chain false c ≡ true
      → switch_channel chain p c ≡ (ok tt, leave_channel chain c)
  unfolding switch_channel
  switch_unflushed p i c e n s = switch_lem p i c.id c e ∙ elim (Bool-cases (i == p.id)) [
    | inl same ↦ absurd (n ((==_iff i p.id).0 same))
    | inr other ↦ leave_unflushed p (i == p.id) (skips chain false c) c other refl s
  ]

  -- When `Claim` accepts a transaction of another channel and what is unflushed is below the minimum, the
  -- new transaction takes the place of the last one, which was not sent: `Claim` has only asked for the
  -- height and for a balance.
  pub claim_unflushed :
      (x : chain.Tx) (p : NanoPayData) (i : ℕ) (c c' : Claimer chain) (a : ℤ)
      → claim chain x c ≡ (ok a, c')
      → chain.unpack x ≡ ok (some p)
      → c.id ≡ some i
      → ¬ (i ≡ p.id)
      → skips chain false c ≡ true
      → (c'.tx ≡ some x)
        × (address : Bytes) × (c'.world ≡ (chain.balance address (chain.get_height c.world).1).1)
  unfolding claim accept leave_channel
  claim_unflushed x p i c c' a h unpacked e n s =
      let (q, c1, e1, e2) = >>=-eq-ok (admit chain x) _ c h in
      let (height, good, update, last) = admit_lem chain x c c1 q e1 in
      let start : Claimer chain = record c { world = (chain.get_height c.world).1 } in
      let same : q ≡ p = cc (good.unpacked, unpacked) in
      let left : switch_channel chain q start ≡ (ok tt, leave_channel chain start) =
        switch_unflushed q i start e (λ k. n (k ∙ ap (λ z. z.id) same)) s in
      let there : good.switched ≡ leave_channel chain start =
        λ j. ((sym good.switched_eq ∙ left) j).1 in
      (
        sym (λ j. (e2 j).1.tx),
        good.address,
        sym (λ j. (e2 j).1.world) ∙ last ∙ ap (λ z. (chain.balance good.address z.world).1) there,
      )
