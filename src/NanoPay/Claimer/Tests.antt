-- ===== src/NanoPay/Claimer/Tests.antt =====
-- nanopay.go: claims in turn, on the chain of the fixtures.
use nkn_sdk_go.Base.{ℕ, ◌≡◌, refl, true, false, some, arith}
use nkn_sdk_go.Base.Int.{ℤ, pos, ◌+ℤ◌, ◌-ℤ◌, ◌≤ℤ◌, to_u32, wrap_i64}
use nkn_sdk_go.NanoPay.Checks.{validate, check_funds}
use nkn_sdk_go.Base.Bytes.{Bytes, text}
use nkn_sdk_go.Errors.{ok, err, invalid_amount}
use nkn_sdk_go.NanoPay.{NanoPayData}
use nkn_sdk_go.NanoPay.Claimer.{Claimer, leave_channel, claim}
use nkn_sdk_go.NanoPay.Claimer.Accepted.{Accepted}
use nkn_sdk_go.NanoPay.Claimer.Total.{Holds, claim_refused, claim_accepted}
use nkn_sdk_go.NanoPay.Claimer.Unflushed.{claim_unflushed}
use nkn_sdk_go.Fixtures.Chain.{toy_chain, made}

-- A claimer with 40 claimed before and 10 in channel 7, of which nothing is flushed.
abbrev waiting : Claimer toy_chain
waiting = record {
  world = 0;
  recipient_hash = text "me";
  min_flush_amount = pos 20;
  closed = false;
  id = some 7;
  expiration = 200;
  amount = pos 10;
  prev_claimed_amount = pos 40;
  prev_flush_amount = pos 0;
  last_claim_time = pos 0;
  tx = some (made (text "you") (text "me") 7 (pos 10) 200, pos 0);
}

abbrev payment : ℕ → ℤ → NanoPayData
payment id amount = made (text "you") (text "me") id amount 200

-- The claimer after a claim of 25 in its channel.
abbrev paid : Claimer toy_chain
paid = record waiting { tx = some (payment 7 (pos 25), pos 0); amount = pos 25 }

accepts : claim toy_chain (payment 7 (pos 25), pos 0) waiting ≡ (ok (pos 65), paid)
unfolding claim validate check_funds wrap_i64 to_u32 ◌+ℤ◌ ◌-ℤ◌
accepts = refl

refuses :
    claim toy_chain (payment 7 (pos 10), pos 0) waiting
    ≡ (err invalid_amount, record waiting { closed = true })
unfolding claim validate check_funds wrap_i64 to_u32 ◌+ℤ◌ ◌-ℤ◌
refuses = refl

waiting-Holds : Holds toy_chain (pos 50) waiting
unfolding ◌+ℤ◌
waiting-Holds = record { total = refl; no_channel = λ e. cc }

claim_accepted_example : (pos 50 ≤ℤ pos 65) × Holds toy_chain (pos 65) paid
unfolding ◌+ℤ◌
claim_accepted_example =
    claim_accepted toy_chain (pos 50) (pos 65) (payment 7 (pos 25), pos 0) waiting paid
      (omega arith) waiting-Holds accepts (omega arith)

claim_refused_example : Holds toy_chain (pos 50) (record waiting { closed = true })
claim_refused_example =
    claim_refused toy_chain (pos 50) (payment 7 (pos 10), pos 0) waiting
      (record waiting { closed = true }) invalid_amount (omega arith) waiting-Holds refuses

-- The claimer after a claim of 1 in another channel.
abbrev moved : Claimer toy_chain
moved = record waiting {
  tx = some (payment 8 (pos 1), pos 0);
  id = some 8;
  amount = pos 1;
  prev_claimed_amount = pos 50;
}

moves : claim toy_chain (payment 8 (pos 1), pos 0) waiting ≡ (ok (pos 51), moved)
unfolding claim validate check_funds leave_channel wrap_i64 to_u32 ◌+ℤ◌ ◌-ℤ◌
moves = refl

claim_unflushed_example :
    (moved.tx ≡ some (payment 8 (pos 1), pos 0))
    × (address : Bytes) × (moved.world
        ≡ (toy_chain.balance address (toy_chain.get_height waiting.world).1).1)
unfolding wrap_i64 ◌-ℤ◌
claim_unflushed_example =
    claim_unflushed toy_chain (payment 8 (pos 1), pos 0) (payment 8 (pos 1)) 7 waiting moved
      (pos 51) moves refl refl (λ e. absurd (omega (arith, e))) refl
