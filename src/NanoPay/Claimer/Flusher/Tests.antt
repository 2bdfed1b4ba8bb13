-- ===== src/NanoPay/Claimer/Flusher/Tests.antt =====
-- nanopay.go: a chain whose clock goes on, and which accepts no transaction.
use nkn_sdk_go.Base.{ℕ, suc, ◌+◌, ◌≡◌, refl, false, some, arith}
use nkn_sdk_go.Base.Int.{ℤ, pos, ◌+ℤ◌, ◌-ℤ◌, pos_part, wrap_i64, to_u32}
use nkn_sdk_go.Base.Bytes.{text}
use nkn_sdk_go.Errors.{ok, err, external}
use nkn_sdk_go.NanoPay.{Blockchain}
use nkn_sdk_go.NanoPay.Claimer.{Claimer}
use nkn_sdk_go.NanoPay.Claimer.Flusher.{
  Flusher, waits, round, flush_due, flush_early, sleep_duration,
}
use nkn_sdk_go.NanoPay.Claimer.Flusher.Waits.{IsSmall, IsWait, round-IsWait}
use nkn_sdk_go.Fixtures.Chain.{toy_chain, made}
use nkn_sdk_go.Fixtures.Clients.{emitter}

abbrev ticking : Blockchain ℕ
ticking = record toy_chain { now = λ w. pos w; send_raw = λ t w. (err (external (pos 1)), suc w) }

abbrev sleep : ℤ → ℕ → ℕ
sleep d w = suc (w + pos_part d)

-- 60 are unflushed, and the minimum is 50.
abbrev claimer : Claimer ticking
claimer = record {
  world = 5;
  recipient_hash = text "bob";
  min_flush_amount = pos 50;
  closed = false;
  id = some 1;
  expiration = 200;
  amount = pos 60;
  prev_claimed_amount = pos 0;
  prev_flush_amount = pos 0;
  last_claim_time = pos 0;
  tx = some (made (text "ann") (text "bob") 1 (pos 60) 200, pos 0);
}

abbrev flusher : Flusher ticking
flusher = record { claimer = claimer; on_error = emitter 1 }

-- In the claim interval of 1 ms the round waits for the rest of it.
round_waits : round ticking 20000000000 (pos 1) flusher ≡ (ok (waits (pos 999995)), flusher)
unfolding round flush_due flush_early sleep_duration ◌+ℤ◌ ◌-ℤ◌ wrap_i64 to_u32
round_waits = refl

flusher-IsSmall : IsSmall ticking 20000000000 (pos 1) 100 flusher
flusher-IsSmall = record {
  height_small = omega arith;
  expiration_small = omega arith;
  wait_small = omega arith;
}

round-IsWait_example : IsWait ticking 20000000000 (pos 1) (pos 999995) 100 flusher 5
round-IsWait_example =
    round-IsWait ticking 20000000000 (pos 1) 100 5 flusher flusher (pos 999995) flusher-IsSmall refl
      round_waits
