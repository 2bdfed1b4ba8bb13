-- ===== src/NanoPay/Checks.antt =====
-- nanopay.go: what `NanoPayClaimer.Claim` checks of a transaction.
pub mod Valid
use nkn_sdk_go.Base.{ℕ, ◌≡◌, Bool, true, false, Option, some, none, leb, ltb, not}
use nkn_sdk_go.Base.Int.{ℤ, ◌+ℤ◌, ltb_ℤ, wrap_i64}
use nkn_sdk_go.Base.Bytes.{Bytes, bytes_eq}
use nkn_sdk_go.Errors.{
  Outcome, ok, err, panic, fail_if, not_nano_pay, wrong_recipient, insufficient_balance,
  expired_nano_pay_txn, expired_nano_pay, ◌>>=◌, ◌>>◌,
}
use nkn_sdk_go.NanoPay.{Blockchain, NanoPayData, add_u32, receiver_expiration_delta}

module _ {W : Type 0} (chain : Blockchain W) where
  open chain use {Tx, unpack, verify, fee, parse_uint160, to_address}

  abbrev pub nano_pay_of : Outcome (Option NanoPayData) → Outcome NanoPayData
  nano_pay_of (ok (some p)) = ok p
  nano_pay_of (ok none) = err not_nano_pay
  nano_pay_of (err e) = err e
  nano_pay_of panic = panic

  -- The checks of `Claim` before it takes the lock; any that fails closes the claimer.
  unfoldable pub validate : Tx → ℕ → Bytes → Outcome (NanoPayData × Bytes)
  validate t height own = do
    p ← nano_pay_of (unpack t)
    recipient ← parse_uint160 p.recipient
    fail_if (not (bytes_eq recipient own)) wrong_recipient
    verify t height
    sender ← parse_uint160 p.sender
    address ← to_address sender
    ok (p, address)

  -- The checks under the lock after that, on the balance of the sender.
  unfoldable pub check_funds : Tx → ℕ → NanoPayData → ℤ → ℤ → Outcome (Unit {0})
  check_funds t height p sender_balance flushed = do
    fail_if (ltb_ℤ (wrap_i64 (sender_balance +ℤ flushed)) (wrap_i64 (p.amount +ℤ fee t)))
        insufficient_balance
    fail_if (leb p.txn_expiration (add_u32 height receiver_expiration_delta)) expired_nano_pay_txn
    fail_if (leb p.nano_pay_expiration (add_u32 height receiver_expiration_delta)) expired_nano_pay
