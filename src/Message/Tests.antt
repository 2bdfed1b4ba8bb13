-- ===== src/Message/Tests.antt =====
-- message.go: replies on concrete inputs.
use nkn_sdk_go.Base.{ℕ, ◌≡◌, refl, [], false}
use nkn_sdk_go.Base.Bytes.{text}
use nkn_sdk_go.Errors.{ok}
use nkn_sdk_go.Message.{
  Payload, string, text as text_type, choose_message_id, new_text_payload, new_reply_payload,
}
use nkn_sdk_go.Fixtures.Boxes.{toy_nacl}
use nkn_sdk_go.Fixtures.Codecs.{toy_codec}

abbrev answer : Payload
answer = record {
  type = text_type;
  message_id = [];
  content = text "yes";
  reply_to_id = text "id";
  no_reply = false;
}

abbrev draws : ℕ
draws = 4

answers :
    new_reply_payload toy_nacl toy_codec (string (text "yes")) (text "id") draws
    ≡ (ok answer, draws)
unfolding new_reply_payload new_text_payload choose_message_id
answers = refl
