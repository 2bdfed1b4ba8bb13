-- ===== src/NanoPay/Payer.antt =====
-- nanopay.go: `NewNanoPay` and `NanoPay.IncrementAmount`.
pub mod Increment
pub mod Expiry
mod Tests
use nkn_sdk_go.Base.{
  ℕ, ◌+◌, ◌≡◌, Bool, true, false, ◌||◌, Option, some, none, leb, ◌==◌, if◌then◌else◌,
}
use nkn_sdk_go.Base.Int.{ℤ, pos, ◌+ℤ◌, wrap_i64, to_u32}
use nkn_sdk_go.Base.Bytes.{Bytes}
use nkn_sdk_go.Errors.{Outcome, ok, err, panic}
use nkn_sdk_go.Action.{Action, pure, raise, lift, gets, modify, ◌>>=◌, ◌>>◌}
use nkn_sdk_go.Message.{is_nil}
use nkn_sdk_go.NanoPay.{Blockchain, NanoPayData, add_u32, sender_expiration_delta}

-- `NanoPay`; `sender` and `recipient` are the program hashes.
pub record NanoPay (W : Type 0) : Type 0 where
  pub world : W
  pub sender : Bytes
  pub recipient : Bytes
  pub default_fee : ℤ
  pub duration : ℕ
  pub amount : ℤ
  pub expiration : ℕ
  pub id : ℕ

module _ {W : Type 0} (chain : Blockchain W) where
  open chain use {
    Tx, get_height, rand_uint64, parse_amount, new_nano_pay, set_fee, sign, to_script_hash,
  }

  -- `NewNanoPay`; `sender` is the program hash of the wallet.
  unfoldable pub create_payer : Bytes → Bytes → Bytes → ℤ → Action W (NanoPay W)
  create_payer sender recipient fee duration = do
    hash ← lift (to_script_hash recipient)
    fee_value ← lift (parse_amount fee)
    n ← (λ w. let (n, w') = rand_uint64 w in (ok n, w'))
    gets (λ w. record {
      world = w;
      sender = sender;
      recipient = hash;
      default_fee = fee_value;
      duration = to_u32 duration;
      amount = pos 0;
      expiration = 0;
      id = n;
    })

  -- The height, or 0 where the call fails and there is a channel already.
  unfoldable pub current_height : Action (NanoPay W) ℤ
  current_height np =
      let (o, w) = get_height np.world in
      let np' = record np { world = w } in
      elim o [
        | ok h ↦ (ok h, np')
        | err e ↦ if np.expiration == 0 then (err e, np') else (ok (pos 0), np')
        | panic ↦ (panic, np')
      ]

  -- `np.expiration == 0 || np.expiration <= uint32(height)+senderExpirationDelta`
  abbrev pub is_expired : ℤ → NanoPay W → Bool
  is_expired height np =
      (np.expiration == 0) || leb np.expiration (add_u32 (to_u32 height) sender_expiration_delta)

  -- A new channel where there is none, or the old one is about to expire.
  unfoldable pub renew_channel : ℤ → NanoPay W → NanoPay W
  renew_channel height np =
      if is_expired height np
      then (let (n, w) = rand_uint64 np.world in
          record np {
            world = w;
            id = n;
            expiration = add_u32 (to_u32 height) np.duration;
            amount = pos 0;
          })
      else np

  -- `np.amount += delta`
  unfoldable pub raise_amount : ℤ → NanoPay W → NanoPay W
  raise_amount d np = record np { amount = wrap_i64 (np.amount +ℤ d) }

  -- The transaction for the state of the channel.
  pub channel_tx : Bytes → NanoPay W → Outcome Tx × NanoPay W
  channel_tx fee = do
    tx ← (λ np. (new_nano_pay np.sender np.recipient np.id np.amount np.expiration, np))
    f ← (λ np. (if is_nil fee then ok np.default_fee else parse_amount fee, np))
    lift (sign (set_fee tx f))

  -- `IncrementAmount`.
  unfoldable pub increment_amount : Bytes → Bytes → NanoPay W → Outcome Tx × NanoPay W
  unfolding channel_tx
  increment_amount delta fee = do
    height ← current_height
    modify (renew_channel height)
    delta_value ← lift (parse_amount delta)
    modify (raise_amount delta_value)
    channel_tx fee
