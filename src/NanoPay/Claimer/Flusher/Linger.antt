-- ===== src/NanoPay/Claimer/Flusher/Linger.antt =====
-- nanopay.go: the flushes after a claimer was closed.
use nkn_sdk_go.Base.{ℕ, suc, ◌≡◌, refl, true, false, none, ◌⊎◌}
use nkn_sdk_go.Base.Int.{ℤ, ◌-ℤ◌, ◌≤ℤ◌, ◌<ℤ◌}
use nkn_sdk_go.Errors.{Outcome, ok, err, panic}
use nkn_sdk_go.Base.Bytes.{Bytes}
use nkn_sdk_go.NanoPay.{Blockchain}
use nkn_sdk_go.NanoPay.Claimer.{Claimer, flush, skips}
use nkn_sdk_go.NanoPay.Claimer.Flusher.{
  Ending, returned, gave_up, out_of_fuel, linger, milliseconds,
}

module _ {W : Type 0} (chain : Blockchain W) (sleep : ℤ → W → W) where
  open chain use {Tx, now, send_raw}

  -- The clock does not go back while a transaction is sent, and goes on while the goroutine sleeps.
  pub record IsClock : Type 0 where
    pub on_send : (t : Tx) (w : W) → now w ≤ℤ now (send_raw t w).1
    pub on_sleep : (d : ℤ) (w : W) → now w <ℤ now (sleep d w)

  -- Nothing is left to flush: there is no transaction, or what is unflushed is below the minimum.
  abbrev pub IsSettled : Claimer chain → Type 0
  IsSettled c = (c.tx ≡ none) ⊎ (skips chain false c ≡ true)

  -- How the loop may end; a panic is one of the code for transactions.
  abbrev pub Ends : ℤ → ℤ → Outcome Ending × Claimer chain → Type 0
  Ends start ms (ok returned, c) = IsSettled c
  Ends start ms (ok gave_up, c) = milliseconds ms <ℤ (now c.world -ℤ start)
  Ends start ms (ok out_of_fuel, c) = ⊥
  Ends start ms (err e, c) = ⊥
  Ends start ms (panic, c) = Unit

  -- What is below the minimum is not sent at the end either: the loop returns with no call made.
  linger_unsent :
      (fuel : ℕ) (start ms : ℤ) (c : Claimer chain)
      → skips chain false c ≡ true
      → linger chain sleep start ms (suc fuel) c ≡ (ok returned, c)
  unfolding linger flush
  linger_unsent fuel start ms c e = rw e refl
