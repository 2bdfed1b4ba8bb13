-- ===== src/Client/Send/Tests.antt =====
-- client.go: a message to bob that is not encrypted, and the same on a closed client.
use nkn_sdk_go.Base.{ℕ, refl, true, false, List, [], ◌∷◌}
use nkn_sdk_go.Base.Int.{pos}
use nkn_sdk_go.Base.Bytes.{Bytes, text}
use nkn_sdk_go.Errors.{Outcome, ok}
use nkn_sdk_go.Action.{Action}
use nkn_sdk_go.Message.{Payload, binary, ready}
use nkn_sdk_go.Client.State.{Client}
use nkn_sdk_go.Client.State.Invariant.{IsValid}
use nkn_sdk_go.Client.Inbound.{Inbox}
use nkn_sdk_go.Client.Send.{SendConfig, send_message}
use nkn_sdk_go.Fixtures.Boxes.{toy_nacl}
use nkn_sdk_go.Fixtures.Codecs.{toy_codec}
use nkn_sdk_go.Fixtures.Clients.{toy_client, toy_net, toy_signing, emitter}

abbrev inbox : Inbox ℕ
inbox = record { client = toy_client; waiting = []; allow_unencrypted = true }

abbrev hello : Payload
hello = record {
  type = binary;
  message_id = text "q";
  content = text "hi";
  reply_to_id = [];
  no_reply = false;
}

abbrev plain : SendConfig
plain = record {
  unencrypted = true;
  no_reply = false;
  max_holding_seconds = pos 0;
  message_id = [];
}

abbrev same : List Bytes → Action ℕ (List Bytes)
same ds w = (ok ds, w)

abbrev sent : Outcome (Unit {0}) × Inbox ℕ
sent =
    send_message toy_nacl toy_codec [] toy_signing toy_net same same (text "bob" ∷ []) (ready hello)
      plain inbox

abbrev closed_client : Client ℕ
closed_client = record toy_client {
  is_closed = true;
  on_connect = record (emitter 1) { closed = true };
  on_message = record (emitter 10) { closed = true };
  on_message_event = record (emitter 100) { closed = true };
  reconnect_closed = true;
  challenge_signature = record (emitter 1) { closed = true };
}

closed_client-IsValid : IsValid closed_client
closed_client-IsValid = record {
  connect_closed = refl;
  message_closed = refl;
  event_closed = refl;
  reconnect_closed_eq = refl;
  challenge_closed = refl;
  has_conn = λ e. cc;
}
