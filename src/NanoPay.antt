-- ===== src/NanoPay.antt =====
-- nanopay.go: a payment channel between a payer (`NanoPay`, here `Payer`) and a recipient
-- (`NanoPayClaimer`, here `Claimer`). Transactions, their validation, the amounts' text format and the
-- RPC node are code outside the repository: `Blockchain` holds what is called of them.
pub mod Payer
pub mod Checks
pub mod Claimer
pub mod Payment
use nkn_sdk_go.Base.{ℕ, ◌+◌, ◌%◌, ◌^◌, ◌≡◌, Bool, Option, some}
use nkn_sdk_go.Base.Int.{ℤ, pos, ◌≤ℤ◌}
use nkn_sdk_go.Base.Bytes.{Bytes}
use nkn_sdk_go.Errors.{Outcome, ok}
use nkn_sdk_go.Action.{Action}

-- `senderExpirationDelta`
abbrev pub sender_expiration_delta : ℕ
sender_expiration_delta = 5

-- `forceFlushDelta`
abbrev pub force_flush_delta : ℕ
force_flush_delta = 2

-- `receiverExpirationDelta`
abbrev pub receiver_expiration_delta : ℕ
receiver_expiration_delta = 3

-- `pb.NanoPay`
pub record NanoPayData : Type 0 where
  pub sender : Bytes
  pub recipient : Bytes
  pub id : ℕ
  pub amount : ℤ
  pub txn_expiration : ℕ
  pub nano_pay_expiration : ℕ

-- `unpack` is none for the payload of another kind of transaction. A transaction that was made for a
-- channel unpacks to that channel's state, also after its fee was set and it was signed; and only
-- transactions of amounts that are not negative are valid.
pub record Blockchain (W : Type 0) : Type 1 where
  pub Tx : Type 0
  pub now : W → ℤ
  pub get_height : Action W ℤ
  pub rand_uint64 : W → ℕ × W
  pub parse_amount : Bytes → Outcome ℤ
  pub new_nano_pay : Bytes → Bytes → ℕ → ℤ → ℕ → Outcome Tx
  pub set_fee : Tx → ℤ → Tx
  pub fee : Tx → ℤ
  pub sign : Tx → Outcome Tx
  pub unpack : Tx → Outcome (Option NanoPayData)
  pub verify : Tx → ℕ → Outcome (Unit {0})
  pub parse_uint160 : Bytes → Outcome Bytes
  pub to_address : Bytes → Outcome Bytes
  pub to_script_hash : Bytes → Outcome Bytes
  pub balance : Bytes → Action W ℤ
  pub send_raw : Tx → Action W Bytes
  pub unpack-new_nano_pay :
      (s r : Bytes) (id : ℕ) (a : ℤ) (e : ℕ) (t : Tx)
      → new_nano_pay s r id a e ≡ ok t
      → unpack t
        ≡ ok (
            some (record {
              sender = s;
              recipient = r;
              id = id;
              amount = a;
              txn_expiration = e;
              nano_pay_expiration = e;
            }))
  pub unpack-set_fee : (t : Tx) (f : ℤ) → unpack (set_fee t f) ≡ unpack t
  pub unpack-sign : (t u : Tx) → sign t ≡ ok u → unpack u ≡ unpack t
  pub verify-nonneg :
      (t : Tx) (h : ℕ) (p : NanoPayData)
      → verify t h ≡ ok tt
      → unpack t ≡ ok (some p)
      → pos 0 ≤ℤ p.amount

-- A sum of uint32 numbers, which wraps around.
abbrev pub add_u32 : ℕ → ℕ → ℕ
add_u32 a b = (a + b) % 2 ^ 32
