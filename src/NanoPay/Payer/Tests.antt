-- ===== src/NanoPay/Payer/Tests.antt =====
-- nanopay.go: the payer on concrete inputs.
use nkn_sdk_go.Base.{ℕ, ◌≡◌, refl, []}
use nkn_sdk_go.Base.Int.{pos, ◌+ℤ◌, wrap_i64, to_u32}
use nkn_sdk_go.Base.Bytes.{text}
use nkn_sdk_go.Errors.{ok}
use nkn_sdk_go.NanoPay.Payer.{
  NanoPay, current_height, renew_channel, raise_amount, increment_amount,
}
use nkn_sdk_go.Fixtures.Chain.{toy_chain, made}

-- A payer without a channel, and the payer after three units.
abbrev fresh : NanoPay ℕ
fresh = record {
  world = 5;
  sender = text "you";
  recipient = text "me";
  default_fee = pos 1;
  duration = 100;
  amount = pos 0;
  expiration = 0;
  id = 0;
}

abbrev opened : NanoPay ℕ
opened = record fresh { world = 6; amount = pos 3; expiration = 200; id = 5 }

increments :
    increment_amount toy_chain (text "abc") [] fresh
    ≡ (ok (made (text "you") (text "me") 5 (pos 3) 200, pos 1), opened)
unfolding increment_amount current_height renew_channel raise_amount wrap_i64 to_u32 ◌+ℤ◌
increments = refl
