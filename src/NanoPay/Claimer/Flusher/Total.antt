-- ===== src/NanoPay/Claimer/Flusher/Total.antt =====
-- nanopay.go: the amounts of a claimer whose goroutine flushes.
use nkn_sdk_go.Base.{ltb, ℕ, zero, suc, Bool, true, false, Option, some, none, if◌then◌else◌}
use nkn_sdk_go.Base.Int.{ℤ, IsInt64, ◌+ℤ◌, ◌-ℤ◌, ltb_ℤ, wrap_i64, to_u32}
use nkn_sdk_go.Errors.{Error, Outcome, ok, err, panic}
use nkn_sdk_go.Channel.{Emitter, receive}
use nkn_sdk_go.NanoPay.{Blockchain, add_u32, force_flush_delta}
use nkn_sdk_go.NanoPay.Claimer.{Claimer, flush}
use nkn_sdk_go.NanoPay.Claimer.Total.{Holds, flush-Keeps}
use nkn_sdk_go.NanoPay.Claimer.Flusher.{
  Flusher, Verdict, goes_on, waits, leaves, Ending, gave_up, milliseconds, minute, smaller,
  sleep_duration, reported, flushed, flush_now, flush_early, flush_due, flush_some, round,
  after_flush, linger,
}

either : {A : Type 0} (P : A → Type 0) (b : Bool) (x y : A) → P x → P y → P (if b then x else y)
either P true x y hx hy = hx
either P false x y hx hy = hy

module _ {W : Type 0} (chain : Blockchain W) (t : ℤ) (fits : IsInt64 t) where
  open chain use {Tx}

  -- The claimer of a result.
  abbrev Kept : Outcome Verdict × Flusher chain → Type 0
  Kept r = Holds chain t r.1.claimer

  moved-Holds :
      (c : Claimer chain) (w : W) → Holds chain t c → Holds chain t (record c { world = w })
  moved-Holds c w h = record { total = h.total; no_channel = h.no_channel }

  reported-Holds :
      (o : Outcome (Emitter Error)) (v : Verdict) (s : Flusher chain)
      → Holds chain t s.claimer
      → Holds chain t (reported chain o v s).1.claimer
  reported-Holds (ok e) v s h = h
  reported-Holds (err x) v s h = h
  reported-Holds panic v s h = h

  flushed-Holds :
      (r : Outcome (Unit {0}) × Claimer chain) (s : Flusher chain)
      → Holds chain t r.1
      → Holds chain t (flushed chain r s).1.claimer
  unfolding flushed
  flushed-Holds (ok u, c) s h = h
  flushed-Holds (err e, c) s h =
      reported-Holds (receive s.on_error e) leaves _
        (record { total = h.total; no_channel = h.no_channel })
  flushed-Holds (panic, c) s h = h

  flush_now-Holds :
      (s : Flusher chain) → Holds chain t s.claimer → Holds chain t (flush_now chain s).1.claimer
  flush_now-Holds s h =
      flushed-Holds (flush chain false s.claimer) s (flush-Keeps chain false t s.claimer fits h)

  module _ (consensus : ℕ) (interval : ℤ) where
    flush_early-Holds :
        (start : ℤ) (r : Outcome ℤ × W) (s : Flusher chain)
        → Holds chain t s.claimer
        → Holds chain t (flush_early chain consensus interval start r s).1.claimer
    unfolding flush_early
    flush_early-Holds start (ok height, w) s h =
        let s' : Flusher chain = record s { claimer = record s.claimer { world = w } } in
        either Kept (ltb (add_u32 (to_u32 height) force_flush_delta) s.claimer.expiration)
          (
            ok (waits (sleep_duration chain consensus interval start (to_u32 height) s'.claimer)),
            s',
          )
          (flush_now chain s') (moved-Holds s.claimer w h)
          (flush_now-Holds s' (moved-Holds s.claimer w h))
    flush_early-Holds start (err e, w) s h =
        reported-Holds (receive s.on_error e) goes_on
          (record s { claimer = record s.claimer { world = w } }) (moved-Holds s.claimer w h)
    flush_early-Holds start (panic, w) s h = moved-Holds s.claimer w h

    flush_some-Holds :
        (o : Option Tx) (s : Flusher chain)
        → Holds chain t s.claimer
        → Holds chain t (flush_some chain consensus interval o s).1.claimer
    unfolding flush_due
    flush_some-Holds none s h = h
    flush_some-Holds (some x) s h =
        let early =
          flush_early chain consensus interval (chain.now s.claimer.world)
            (chain.get_height s.claimer.world) s in
        let soon =
          ltb_ℤ (chain.now s.claimer.world) (s.claimer.last_claim_time +ℤ milliseconds interval) in
        let low =
          ltb_ℤ (wrap_i64 (s.claimer.amount -ℤ s.claimer.prev_flush_amount))
            s.claimer.min_flush_amount in
        either Kept low (ok goes_on, s) (if soon then early else flush_now chain s) h
          (either Kept soon early (flush_now chain s)
            (flush_early-Holds (chain.now s.claimer.world) (chain.get_height s.claimer.world) s h)
            (flush_now-Holds s h))

    -- A round keeps the total amount.
    pub round-Holds :
        (s : Flusher chain)
        → Holds chain t s.claimer
        → Holds chain t (round chain consensus interval s).1.claimer
    unfolding round
    round-Holds s h =
        either Kept s.claimer.closed (ok leaves, s)
          (flush_some chain consensus interval s.claimer.tx s) h (flush_some-Holds s.claimer.tx s h)

  after_flush-Holds :
      (start ms : ℤ) (o : Outcome (Unit {0})) (c : Claimer chain)
      (rest : Outcome Ending × Claimer chain)
      → Holds chain t c
      → Holds chain t rest.1
      → Holds chain t (after_flush chain start ms o c rest).1
  after_flush-Holds start ms (ok u) c rest h k = h
  after_flush-Holds start ms (err e) c rest h k =
      either (λ (r : Outcome Ending × Claimer chain). Holds chain t r.1)
        (ltb_ℤ (milliseconds ms) (chain.now c.world -ℤ start)) (ok gave_up, c) rest h k
  after_flush-Holds start ms panic c rest h k = h

  -- So does the deferred loop.
  pub linger-Holds :
      (sleep : ℤ → W → W) (start ms : ℤ) (fuel : ℕ) (c : Claimer chain)
      → Holds chain t c
      → Holds chain t (linger chain sleep start ms fuel c).1
  unfolding linger
  linger-Holds sleep start ms zero c h = h
  linger-Holds sleep start ms (suc fuel) c h =
      let r = flush chain false c in
      let k = flush-Keeps chain false t c fits h in
      let w =
        sleep (smaller minute ((start +ℤ milliseconds ms) -ℤ chain.now r.1.world)) r.1.world in
      after_flush-Holds start ms r.0 r.1 _ k
        (linger-Holds sleep start ms fuel (record r.1 { world = w }) (moved-Holds r.1 w k))
