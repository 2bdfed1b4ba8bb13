-- ===== src/NanoPay/Checks/Valid.antt =====
-- nanopay.go: what a transaction that passes the checks of `Claim` is like.
use nkn_sdk_go.Base.{
  ℕ, ◌<◌, ◌≡◌, refl, ap, ◌∙◌, Bool, true, false, not, leb, Option, some, none, arith,
}
use nkn_sdk_go.Base.Int.{ℤ, ◌+ℤ◌, ◌≤ℤ◌, ltb_ℤ, wrap_i64}
use nkn_sdk_go.Base.Bytes.{Bytes, bytes_eq, bytes_eq_iff}
use nkn_sdk_go.Errors.{
  Error, Outcome, ok, err, panic, ok-injective, fail_if, wrong_recipient, insufficient_balance,
  expired_nano_pay, expired_nano_pay_txn, >>=-eq-ok,
}
use nkn_sdk_go.NanoPay.{Blockchain, NanoPayData, add_u32, receiver_expiration_delta}
use nkn_sdk_go.NanoPay.Checks.{nano_pay_of, validate, check_funds}

pub fail_if_ok : (b : Bool) (e : Error) → fail_if b e ≡ ok tt → b ≡ false
fail_if_ok true e h = cc
fail_if_ok false e h = refl

leb-false : (a b : ℕ) → leb a b ≡ false → b < a
leb-false a b h = ground (arith, h)

module _ {W : Type 0} (chain : Blockchain W) where
  open chain use {Tx}

  nano_pay_of_ok :
      (o : Outcome (Option NanoPayData)) (p : NanoPayData)
      → nano_pay_of chain o ≡ ok p
      → o ≡ ok (some p)
  nano_pay_of_ok (ok (some q)) p h = cc
  nano_pay_of_ok (ok none) p h = cc
  nano_pay_of_ok (err e) p h = cc
  nano_pay_of_ok panic p h = cc

  not-false : (b : Bool) → not b ≡ false → b ≡ true
  not-false true h = refl
  not-false false h = cc

  pub validate_ok :
      (x : Tx) (n : ℕ) (own : Bytes) (p : NanoPayData) (address : Bytes)
      → validate chain x n own ≡ ok (p, address)
      → (chain.unpack x ≡ ok (some p))
        × (chain.verify x n ≡ ok tt)
        × (chain.parse_uint160 p.recipient ≡ ok own)
        × (sender : Bytes) × (chain.parse_uint160 p.sender ≡ ok sender)
        × (chain.to_address sender ≡ ok address)
  unfolding validate
  validate_ok x n own p address h =
      let (q, e1, h1) = >>=-eq-ok (nano_pay_of chain (chain.unpack x)) _ h in
      let (r, e2, h2) = >>=-eq-ok (chain.parse_uint160 q.recipient) _ h1 in
      let (u, e3, h3) = >>=-eq-ok (fail_if (not (bytes_eq r own)) wrong_recipient) _ h2 in
      let (v, e4, h4) = >>=-eq-ok (chain.verify x n) _ h3 in
      let (s, e5, h5) = >>=-eq-ok (chain.parse_uint160 q.sender) _ h4 in
      let (a, e6, h6) = >>=-eq-ok (chain.to_address s) _ h5 in
      let same : q ≡ p = ap (λ z. z.0) (ok-injective h6) in
      let own_hash : r ≡ own =
        (bytes_eq_iff r own).0 (not-false (bytes_eq r own) (fail_if_ok _ wrong_recipient e3)) in
      (
        nano_pay_of_ok (chain.unpack x) q e1 ∙ ap (λ z. ok (some z)) same,
        e4,
        rw (← same) (e2 ∙ ap ok own_hash),
        s,
        rw (← same) e5,
        e6 ∙ ap ok (ap (λ z. z.1) (ok-injective h6)),
      )

  pub check_funds_ok :
      (x : Tx) (n : ℕ) (p : NanoPayData) (b f : ℤ)
      → check_funds chain x n p b f ≡ ok tt
      → (wrap_i64 (p.amount +ℤ chain.fee x) ≤ℤ wrap_i64 (b +ℤ f))
        × (add_u32 n receiver_expiration_delta < p.txn_expiration)
        × (add_u32 n receiver_expiration_delta < p.nano_pay_expiration)
  unfolding check_funds
  check_funds_ok x n p b f h =
      let (u, e1, h1) =
        >>=-eq-ok
          (fail_if (ltb_ℤ (wrap_i64 (b +ℤ f)) (wrap_i64 (p.amount +ℤ chain.fee x)))
            insufficient_balance)
          _ h in
      let (v, e2, h2) =
        >>=-eq-ok
          (fail_if (leb p.txn_expiration (add_u32 n receiver_expiration_delta))
            expired_nano_pay_txn)
          _ h1 in
      (
        ground (arith, fail_if_ok _ insufficient_balance e1),
        leb-false _ _ (fail_if_ok _ expired_nano_pay_txn e2),
        leb-false _ _ (fail_if_ok _ expired_nano_pay h2),
      )
