-- ===== src/NanoPay/Claimer/Flusher.antt =====
-- nanopay.go: the goroutine of `NewNanoPayClaimer`, which flushes from time to time, and goes on for a while
-- after the claimer was closed. One round of its loop is one operation, since the loop ends only with the
-- claimer. Times are nanoseconds.
pub mod Linger
pub mod Waits
pub mod Total
mod Tests
use nkn_sdk_go.Base.{
  ℕ, zero, suc, ◌*◌, ◌-◌, ltb, Bool, true, false, Option, some, none, if◌then◌else◌,
}
use nkn_sdk_go.Base.Int.{ℤ, pos, negsuc, ◌+ℤ◌, ◌-ℤ◌, ltb_ℤ, wrap_i64, to_u32}
use nkn_sdk_go.Errors.{Error, Outcome, ok, err, panic}
use nkn_sdk_go.Action.{Action, pure, gets, ◌>>=◌, ◌>>◌}
use nkn_sdk_go.Channel.{Emitter, receive}
use nkn_sdk_go.NanoPay.{Blockchain, add_u32, force_flush_delta}
use nkn_sdk_go.NanoPay.Claimer.{Claimer, flush, close}

-- `time.Minute`
abbrev pub minute : ℤ
minute = pos 60000000000

-- `time.Duration(x) * time.Millisecond`, of an int32.
abbrev pub milliseconds : ℤ → ℤ
milliseconds (pos n) = pos (n * 1000000)
milliseconds (negsuc n) = negsuc (suc n * 1000000 - 1)

abbrev pub smaller : ℤ → ℤ → ℤ
smaller a b = if ltb_ℤ b a then b else a

-- How a round ends: the loop goes on, perhaps after a wait that a close breaks off, or it is left.
pub data Verdict : Type 0 where
  goes_on : Verdict
  waits : ℤ → Verdict
  leaves : Verdict

-- How the deferred loop ends.
pub data Ending : Type 0 where
  returned : Ending
  gave_up : Ending
  out_of_fuel : Ending

-- `uint32(x) - y` on uint32 numbers, which wraps around.
abbrev pub sub_u32 : ℕ → ℕ → ℕ
sub_u32 a b = to_u32 (pos a -ℤ pos b)

module _ {W : Type 0} (chain : Blockchain W) where
  open chain use {Tx, now, get_height}

  -- The claimer, and the channel for errors.
  pub record Flusher : Type 0 where
    pub claimer : Claimer chain
    pub on_error : Emitter Error

  abbrev pub reported : Outcome (Emitter Error) → Verdict → Flusher → Outcome Verdict × Flusher
  reported (ok e) v s = (ok v, record s { on_error = e })
  reported (err x) v s = (err x, s)
  reported panic v s = (panic, s)

  -- `onError.receive(err)`
  abbrev pub report : Error → Verdict → Action Flusher Verdict
  report e v s = reported (receive s.on_error e) v s

  -- `npc.Flush()`, which a failure follows by closing the claimer.
  pub flushed : Outcome (Unit {0}) × Claimer chain → Flusher → Outcome Verdict × Flusher
  flushed (ok u, c) s = (ok goes_on, record s { claimer = c })
  flushed (err e, c) s = report e leaves (record s { claimer = close chain c })
  flushed (panic, c) s = (panic, record s { claimer = c })

  abbrev pub flush_now : Action Flusher Verdict
  flush_now s = flushed (flush chain false s.claimer) s

  -- What is left of a claim interval, but not longer than until the transaction must be flushed;
  -- `consensus` is `config.ConsensusDuration`, and `start` the time that was read before the height.
  pub sleep_duration : ℕ → ℤ → ℤ → ℕ → Claimer chain → ℤ
  sleep_duration consensus interval start height c =
      smaller ((c.last_claim_time +ℤ milliseconds interval) -ℤ start)
        (wrap_i64 (pos (sub_u32 (sub_u32 c.expiration height) force_flush_delta * consensus)))

  -- Within the claim interval a flush is only for a transaction that expires soon.
  pub flush_early : ℕ → ℤ → ℤ → Outcome ℤ × W → Action Flusher Verdict
  unfolding sleep_duration flushed
  flush_early consensus interval start (ok height, w) s =
      let s' : Flusher = record s { claimer = record s.claimer { world = w } } in
      if ltb (add_u32 (to_u32 height) force_flush_delta) s.claimer.expiration
      then (ok (waits (sleep_duration consensus interval start (to_u32 height) s'.claimer)), s')
      else flush_now s'
  flush_early consensus interval start (err e, w) s =
      report e goes_on (record s { claimer = record s.claimer { world = w } })
  flush_early consensus interval start (panic, w) s =
      (panic, record s { claimer = record s.claimer { world = w } })

  -- A round with a transaction.
  pub flush_due : ℕ → ℤ → Action Flusher Verdict
  unfolding flush_early
  flush_due consensus interval s =
      if ltb_ℤ (wrap_i64 (s.claimer.amount -ℤ s.claimer.prev_flush_amount))
        s.claimer.min_flush_amount
      then (ok goes_on, s)
      else if ltb_ℤ (now s.claimer.world) (s.claimer.last_claim_time +ℤ milliseconds interval)
      then flush_early consensus interval (now s.claimer.world) (get_height s.claimer.world) s
      else flush_now s

  abbrev pub flush_some : ℕ → ℤ → Option Tx → Action Flusher Verdict
  flush_some consensus interval none s = (ok goes_on, s)
  flush_some consensus interval (some t) s = flush_due consensus interval s

  -- A round of the loop, after its sleep.
  pub round : ℕ → ℤ → Action Flusher Verdict
  unfolding flush_due
  round consensus interval s =
      if s.claimer.closed then (ok leaves, s) else flush_some consensus interval s.claimer.tx s

  abbrev pub on_world : (ℤ → W → W) → ℤ → Claimer chain → Claimer chain
  on_world sleep d c = record c { world = sleep d c.world }

  -- What follows a flush of the deferred loop; `rest` are the further rounds.
  abbrev pub after_flush :
      ℤ
      → ℤ
      → Outcome (Unit {0})
      → Claimer chain
      → Outcome Ending × Claimer chain
      → Outcome Ending × Claimer chain
  after_flush start linger_ms (ok u) c rest = (ok returned, c)
  after_flush start linger_ms (err e) c rest =
      if ltb_ℤ (milliseconds linger_ms) (now c.world -ℤ start) then (ok gave_up, c) else rest
  after_flush start linger_ms panic c rest = (panic, c)

  -- The deferred loop, which was begun at `start`; `fuel` bounds its rounds.
  pub linger : (ℤ → W → W) → ℤ → ℤ → ℕ → Claimer chain → Outcome Ending × Claimer chain
  linger sleep start linger_ms zero c = (ok out_of_fuel, c)
  linger sleep start linger_ms (suc fuel) c =
      let (o, c') = flush chain false c in
      let rest =
        linger sleep start linger_ms fuel (
          on_world sleep (smaller minute ((start +ℤ milliseconds linger_ms) -ℤ now c'.world)) c') in
      after_flush start linger_ms o c' rest
