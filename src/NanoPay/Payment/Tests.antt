-- ===== src/NanoPay/Payment/Tests.antt =====
-- nanopay.go: two payments, the second in a new channel, on a chain whose height is its world.
use nkn_sdk_go.Base.{ℕ, ◌≡◌, refl, false, Option, some, none, [], inl, inr, arith}
use nkn_sdk_go.Base.Int.{ℤ, pos, ◌+ℤ◌, ◌-ℤ◌, wrap_i64, to_u32}
use nkn_sdk_go.Base.Bytes.{text}
use nkn_sdk_go.Errors.{ok}
use nkn_sdk_go.NanoPay.{Blockchain, NanoPayData}
use nkn_sdk_go.NanoPay.Checks.{validate, check_funds}
use nkn_sdk_go.NanoPay.Payer.{
  NanoPay, create_payer, current_height, renew_channel, raise_amount, increment_amount,
}
use nkn_sdk_go.NanoPay.Claimer.{Claimer, create_claimer, claim, flush, flush_tx, leave_channel}
use nkn_sdk_go.NanoPay.Payment.{Payment}
use nkn_sdk_go.NanoPay.Payment.Paid.{Paid, begins, pays, rests, claim-Paid}
use nkn_sdk_go.Fixtures.Chain.{toy_chain, made}

abbrev growing : Blockchain ℕ
growing = record toy_chain { get_height = λ w. (ok (pos w), w) }

abbrev payer : ℕ → ℕ → ℕ → ℤ → NanoPay ℕ
payer world id expiration amount = record {
  world = world;
  sender = text "you";
  recipient = text "me";
  default_fee = pos 1;
  duration = 10;
  amount = amount;
  expiration = expiration;
  id = id;
}

abbrev payment : ℕ → ℕ → ℤ → NanoPayData × ℤ
payment id expiration amount = (made (text "you") (text "me") id amount expiration, pos 1)

abbrev claimer : ℕ → Option ℕ → ℕ → ℤ → ℤ → ℤ → Option (NanoPayData × ℤ) → Claimer growing
claimer world id expiration amount before flushed tx = record {
  world = world;
  recipient_hash = text "me";
  min_flush_amount = pos 0;
  closed = false;
  id = id;
  expiration = expiration;
  amount = amount;
  prev_claimed_amount = before;
  prev_flush_amount = flushed;
  last_claim_time = pos 0;
  tx = tx;
}

abbrev first_claimed : ℕ → Claimer growing
first_claimed world =
    claimer world (some 101) 111 (pos 3) (pos 0) (pos 0) (some (payment 101 111 (pos 3)))

payer_made :
    create_payer growing (text "you") (text "me") (text "f") (pos 10) 100
    ≡ (ok (payer 101 100 0 (pos 0)), 101)
unfolding create_payer to_u32
payer_made = refl

claimer_made :
    create_claimer growing (text "me") [] 101
    ≡ (ok (claimer 101 none 0 (pos 0) (pos 0) (pos 0) none), 101)
unfolding create_claimer
claimer_made = refl

first_paid :
    Payment growing
      (payer 101 100 0 (pos 0))
      (payer 102 101 111 (pos 3))
      (claimer 101 none 0 (pos 0) (pos 0) (pos 0) none)
      (payment 101 111 (pos 3))
      (pos 3)
unfolding increment_amount current_height renew_channel raise_amount wrap_i64 to_u32 ◌+ℤ◌
first_paid = record {
  delta = text "abc";
  fee = [];
  paid = refl;
  delta_parsed = refl;
  positive = omega arith;
  height = 101;
  height_world = 101;
  height_known = refl;
  in_range = omega arith;
  lasts = omega arith;
  fits = (omega arith, omega arith);
  claim_height = 101;
  in_time = omega arith;
  claim_world = 101;
  after = claimer 101 none 0 (pos 0) (pos 0) (pos 0) none;
  moves = inl (inl refl, refl);
  ready = record {
    height_known = refl;
    to_me = refl;
    verified = refl;
    sender_hash = text "you";
    sender_known = refl;
    address = text "you";
    address_known = refl;
    is_open = refl;
    sender_balance = pos 1000;
    balance_world = 101;
    balance_known = refl;
    enough = omega arith;
  };
}

first_accepted :
    claim growing (payment 101 111 (pos 3)) (claimer 101 none 0 (pos 0) (pos 0) (pos 0) none)
    ≡ (ok (pos 3), first_claimed 101)
unfolding claim validate check_funds wrap_i64 to_u32 ◌+ℤ◌ ◌-ℤ◌
first_accepted = refl

-- Nineteen blocks later the channel has expired.
first_done : Paid growing (payer 120 101 111 (pos 3)) (first_claimed 120) (pos 3)
unfolding ◌+ℤ◌
first_done =
    rests (payer 102 101 111 (pos 3)) 120 (first_claimed 101) (first_claimed 120) (pos 3)
      (pays (payer 101 100 0 (pos 0)) (payer 102 101 111 (pos 3))
        (claimer 101 none 0 (pos 0) (pos 0) (pos 0) none) (first_claimed 101)
        (payment 101 111 (pos 3)) (pos 3) (pos 0) (pos 3)
        (begins (text "you") (text "me") (text "f") [] (pos 10) 100 101 101 101
          (payer 101 100 0 (pos 0)) (claimer 101 none 0 (pos 0) (pos 0) (pos 0) none) payer_made
          claimer_made)
        first_paid (omega arith, omega arith) first_accepted)
      refl refl refl

-- The transaction of the first channel is sent before the second begins.
second_paid :
    Payment growing
      (payer 120 101 111 (pos 3))
      (payer 121 120 130 (pos 2))
      (first_claimed 120)
      (payment 120 130 (pos 2))
      (pos 2)
unfolding increment_amount current_height renew_channel raise_amount wrap_i64 to_u32 flush flush_tx
    leave_channel ◌+ℤ◌ ◌-ℤ◌
second_paid = record {
  delta = text "ab";
  fee = [];
  paid = refl;
  delta_parsed = refl;
  positive = omega arith;
  height = 120;
  height_world = 120;
  height_known = refl;
  in_range = omega arith;
  lasts = omega arith;
  fits = (omega arith, omega arith);
  claim_height = 120;
  in_time = omega arith;
  claim_world = 120;
  after = claimer 121 none 0 (pos 0) (pos 3) (pos 0) none;
  moves = inr (
    refl,
    101,
    claimer 121 (some 101) 0 (pos 3) (pos 0) (pos 3) none,
    refl,
    (λ e. absurd (omega (arith, e))),
    refl,
    refl,
  );
  ready = record {
    height_known = refl;
    to_me = refl;
    verified = refl;
    sender_hash = text "you";
    sender_known = refl;
    address = text "you";
    address_known = refl;
    is_open = refl;
    sender_balance = pos 1000;
    balance_world = 121;
    balance_known = refl;
    enough = omega arith;
  };
}

claim-Paid_example :
    (c : Claimer growing) × (claim growing (payment 120 130 (pos 2)) (first_claimed 120)
      ≡ (ok (pos 3 +ℤ pos 2), c))
    × Paid growing (payer 121 120 130 (pos 2)) c (pos 3 +ℤ pos 2)
    × (c.tx ≡ some (payment 120 130 (pos 2)))
    × (c.id ≡ some 120)
    × (c.amount ≡ pos 2)
unfolding ◌+ℤ◌
claim-Paid_example =
    claim-Paid growing (payer 120 101 111 (pos 3)) (payer 121 120 130 (pos 2)) (first_claimed 120)
      (payment 120 130 (pos 2)) (pos 2) (pos 3) first_done second_paid (omega arith, omega arith)
