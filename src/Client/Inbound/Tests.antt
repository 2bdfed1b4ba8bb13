-- ===== src/Client/Inbound/Tests.antt =====
-- client.go: a message and a reply to a client that waits for one reply.
use nkn_sdk_go.Base.{ℕ, refl, true, false, [], ◌∷◌, Option, none}
use nkn_sdk_go.Base.Bytes.{text}
use nkn_sdk_go.Errors.{Outcome, ok, err, panic}
use nkn_sdk_go.Message.{Payload, binary}
use nkn_sdk_go.Channel.{Emitter, receive}
use nkn_sdk_go.Client.State.{Message}
use nkn_sdk_go.Client.Inbound.{Inbox, InboundMessage, deliver_reply, deliver_to, emit}
use nkn_sdk_go.Client.Inbound.Delivery.{IsAnswered, deliver_reply-IsAnswered}
use nkn_sdk_go.Fixtures.Boxes.{toy_nacl}
use nkn_sdk_go.Fixtures.Codecs.{toy_codec}
use nkn_sdk_go.Fixtures.Clients.{toy_client, emitter}

abbrev inbox : Inbox ℕ
inbox = record {
  client = toy_client;
  waiting = (text "q", emitter 1) ∷ [];
  allow_unencrypted = true;
}

abbrev arrived : InboundMessage
arrived = record {
  src = text "bob";
  envelope = record { payload = []; encrypted = false; nonce = []; encrypted_key = [] };
}

abbrev answer : Payload
answer = record {
  type = binary;
  message_id = [];
  content = text "yes";
  reply_to_id = text "q";
  no_reply = false;
}

abbrev after : Outcome (Option (Emitter Message)) × Inbox ℕ
after = deliver_reply toy_nacl toy_codec [] arrived answer (text "yes") inbox

abbrev channel_of : Outcome (Option (Emitter Message)) → Option (Emitter Message)
channel_of (ok o) = o
channel_of (err e) = none
channel_of panic = none

deliver_reply-IsAnswered_example : IsAnswered toy_nacl toy_codec [] (text "q") inbox after.1
unfolding deliver_reply deliver_to emit receive
deliver_reply-IsAnswered_example =
    deliver_reply-IsAnswered toy_nacl toy_codec [] arrived answer (text "yes") inbox after.1
      (channel_of after.0) refl
