-- ===== src/NanoPay/Claimer.antt =====
-- nanopay.go: `NanoPayClaimer` with `Claim`, `flush`, `close` and `Amount`, as `NewNanoPayClaimer` makes it.
-- `closed` stands for the closed channel `closeChan` too. Claimer/Flusher has the goroutine that flushes
-- from time to time.
pub mod Unflushed
pub mod Total
pub mod Accepted
pub mod Accepts
pub mod Flusher
mod Tests
use nkn_sdk_go.Base.{
  ℕ, ◌≡◌, Bool, true, false, Option, some, none, ltb, leb, not, ◌&&◌, ◌==◌, if◌then◌else◌,
}
use nkn_sdk_go.Base.Int.{ℤ, pos, ◌+ℤ◌, ◌-ℤ◌, ltb_ℤ, leb_ℤ, wrap_i64, to_u32}
use nkn_sdk_go.Base.Bytes.{Bytes, bytes_eq}
use nkn_sdk_go.Errors.{
  Error, Outcome, ok, err, panic, fail_if, not_nano_pay, wrong_recipient, nano_pay_closed,
  invalid_amount, insufficient_balance, expired_nano_pay_txn, expired_nano_pay,
}
use nkn_sdk_go.Action.{Action, pure, raise, lift, gets, modify, raise_if, continue, ◌>>=◌, ◌>>◌}
use nkn_sdk_go.NanoPay.Checks.{nano_pay_of, validate, check_funds}
use nkn_sdk_go.NanoPay.{Blockchain, NanoPayData, add_u32, receiver_expiration_delta}

-- `NanoPayClaimer`
pub record NanoPayClaimer {ℓ} (W : Type 0) (Tx : Type ℓ) : Type ℓ where
  pub world : W
  pub recipient_hash : Bytes
  pub min_flush_amount : ℤ
  pub closed : Bool
  pub id : Option ℕ
  pub expiration : ℕ
  pub amount : ℤ
  pub prev_claimed_amount : ℤ
  pub prev_flush_amount : ℤ
  pub last_claim_time : ℤ
  pub tx : Option Tx

module _ {W : Type 0} (chain : Blockchain W) where
  open chain use {
    Tx, now, unpack, get_height, verify, fee, parse_uint160, to_address, balance, send_raw,
    to_script_hash, parse_amount,
  }

  abbrev pub Claimer : Type 0
  Claimer = NanoPayClaimer W Tx

  -- The claimer of `NewNanoPayClaimer`.
  unfoldable pub create_claimer : Bytes → Bytes → Action W Claimer
  create_claimer recipient min_flush_amount = do
    hash ← lift (to_script_hash recipient)
    least ← lift (parse_amount min_flush_amount)
    gets (λ w. record {
      world = w;
      recipient_hash = hash;
      min_flush_amount = least;
      closed = false;
      id = none;
      expiration = 0;
      amount = pos 0;
      prev_claimed_amount = pos 0;
      prev_flush_amount = pos 0;
      last_claim_time = now w;
      tx = none;
    })

  abbrev pub on_world {ℓ} : {A : Type ℓ} → Action W A → Action Claimer A
  on_world m c = let (o, w) = m c.world in (o, record c { world = w })

  abbrev pub close : Claimer → Claimer
  close c = record c { closed = true }

  -- `closeWithError`
  abbrev pub close_with_error {ℓ} : {A : Type ℓ} → Error → Action Claimer A
  close_with_error e c = (err e, close c)

  -- `if err != nil { return nil, npc.closeWithError(err) }`
  abbrev pub or_close {ℓ} : {A : Type ℓ} → Outcome A → Action Claimer A
  or_close (ok a) c = (ok a, c)
  or_close (err e) c = close_with_error e c
  or_close panic c = (panic, c)

  -- `if b { return nil, npc.closeWithError(e) }`
  abbrev pub close_if : Bool → Error → Action Claimer (Unit {0})
  close_if true e = close_with_error e
  close_if false e = pure tt

  -- `flush` once there is a transaction to send.
  unfoldable pub flush_tx : Tx → Action Claimer (Unit {0})
  flush_tx t = do
    p ← or_close (nano_pay_of chain (unpack t))
    h ← on_world (send_raw t)
    modify (λ c. record c {
      tx = none;
      expiration = 0;
      last_claim_time = now c.world;
      prev_flush_amount = p.amount;
    })

  pub flush_any : Option Tx → Action Claimer (Unit {0})
  flush_any none = pure tt
  flush_any (some t) = flush_tx t

  -- `!force && npc.amount-npc.prevFlushAmount < npc.minFlushAmount`
  abbrev pub skips : Bool → Claimer → Bool
  skips force c = not force && ltb_ℤ (wrap_i64 (c.amount -ℤ c.prev_flush_amount)) c.min_flush_amount

  -- `flush`
  unfoldable pub flush : Bool → Action Claimer (Unit {0})
  unfolding flush_any
  flush force c = if skips force c then (ok tt, c) else flush_any c.tx c

  -- `Amount`
  pub amount_of : Claimer → ℤ
  amount_of c = wrap_i64 (c.prev_claimed_amount +ℤ c.amount)

  -- A failed flush within `Claim` closes the claimer.
  pub close_on_error : Outcome (Unit {0}) × Claimer → Outcome (Unit {0}) × Claimer
  close_on_error (ok u, c) = (ok u, c)
  close_on_error (err e, c) = close_with_error e c
  close_on_error (panic, c) = (panic, c)

  -- The previous channel becomes part of what was claimed before.
  unfoldable pub leave_channel : Claimer → Claimer
  leave_channel c = record c {
    id = none;
    prev_claimed_amount = wrap_i64 (c.prev_claimed_amount +ℤ c.amount);
    prev_flush_amount = pos 0;
    amount = pos 0;
  }

  -- Within a channel an amount must grow; another channel comes after a flush.
  pub switch_when : Bool → NanoPayData → Action Claimer (Unit {0})
  unfolding flush close_on_error leave_channel
  switch_when true p c = close_if (leb_ℤ p.amount c.amount) invalid_amount c
  switch_when false p c = ((λ s. close_on_error (flush false s)) >> modify leave_channel) c

  pub switch_from : Option ℕ → NanoPayData → Action Claimer (Unit {0})
  unfolding switch_when
  switch_from none p c = (ok tt, c)
  switch_from (some i) p c = switch_when (i == p.id) p c

  -- `if npc.id != nil { ... }`
  pub switch_channel : NanoPayData → Action Claimer (Unit {0})
  unfolding switch_from
  switch_channel p c = switch_from c.id p c

  pub admit_valid : Tx → ℕ → NanoPayData × Bytes → Action Claimer NanoPayData
  unfolding switch_channel
  admit_valid t height (p, address) = do
    is_closed ← gets (λ c. c.closed)
    raise_if is_closed nano_pay_closed
    switch_channel p
    b ← on_world (balance address)
    flushed ← gets (λ c. c.prev_flush_amount)
    or_close (check_funds chain t height p b flushed)
    pure p

  -- All of `Claim` that can fail.
  pub admit : Tx → Action Claimer NanoPayData
  unfolding admit_valid
  admit t = do
    height ← on_world get_height
    own ← gets (λ c. c.recipient_hash)
    v ← or_close (validate chain t (to_u32 height) own)
    admit_valid t (to_u32 height) v

  -- The new state of an accepted transaction.
  pub accept : Tx → NanoPayData → Claimer → Claimer
  accept t p c = record c {
    tx = some t;
    id = some p.id;
    expiration = p.txn_expiration;
    amount = p.amount;
  }

  -- `Claim`
  unfoldable pub claim : Tx → Action Claimer ℤ
  unfolding admit accept amount_of
  claim t = do p ← admit t; modify (accept t p); gets amount_of
