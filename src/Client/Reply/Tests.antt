-- ===== src/Client/Reply/Tests.antt =====
-- client.go: a request to bob that is not encrypted, and bob's reply.
use nkn_sdk_go.Base.{ℕ, ◌≡◌, refl, true, false, some, List, [], ◌∷◌}
use nkn_sdk_go.Base.Int.{pos}
use nkn_sdk_go.Base.Bytes.{Bytes, text}
use nkn_sdk_go.Errors.{Outcome, ok}
use nkn_sdk_go.Action.{Action}
use nkn_sdk_go.Channel.{new_emitter, receive}
use nkn_sdk_go.Message.{
  Payload, binary, ready, bytes, new_binary_payload, new_reply_payload, choose_message_id,
}
use nkn_sdk_go.Client.State.{Client, Message, write_message}
use nkn_sdk_go.Client.Outbound.{client_message_bytes, sign_each, data_at, block_hash_of}
use nkn_sdk_go.Client.Batch.{
  new_payloads, new_outbound_message, batch_of_one, batches, write_each, send_processed,
  send_timeout,
}
use nkn_sdk_go.Client.Inbound.{Inbox, InboundMessage, emit, deliver_reply, deliver_to}
use nkn_sdk_go.Client.Send.{
  SendConfig, await_reply, report, send_reported, send_message, payload_of,
}
use nkn_sdk_go.Client.Reply.{reply, send_reply}
use nkn_sdk_go.Client.Reply.Answers.{IsReplied, reply-IsDelivered}
use nkn_sdk_go.Fixtures.Boxes.{toy_nacl}
use nkn_sdk_go.Fixtures.Codecs.{toy_codec, put}
use nkn_sdk_go.Fixtures.Clients.{toy_client, toy_net, toy_signing}

abbrev inbox : Inbox ℕ
inbox = record { client = toy_client; waiting = []; allow_unencrypted = true }

abbrev plain : SendConfig
plain = record {
  unencrypted = true;
  no_reply = false;
  max_holding_seconds = pos 0;
  message_id = [];
}

abbrev question : Payload
question = record {
  type = binary;
  message_id = text "q";
  content = text "hi";
  reply_to_id = [];
  no_reply = false;
}

-- What bob has received.
abbrev heard : Message
heard = record {
  src = text "alice";
  content = text "hi";
  type = binary;
  encrypted = false;
  message_id = text "q";
  no_reply = false;
}

abbrev same : List Bytes → Action ℕ (List Bytes)
same ds w = (ok ds, w)

abbrev asked : Outcome (Unit {0}) × Inbox ℕ
asked =
    send_message toy_nacl toy_codec [] toy_signing toy_net same same (text "bob" ∷ [])
      (ready question) plain inbox

asked_ok : asked ≡ (ok tt, asked.1)
unfolding send_message payload_of send_reported report await_reply send_timeout send_processed
    new_payloads batches batch_of_one new_outbound_message sign_each data_at block_hash_of
    write_each client_message_bytes write_message emit receive put
asked_ok = refl

question_made :
    (payload_of toy_nacl toy_codec [] toy_signing toy_net same same
      (ready question)
      plain
      (same (text "bob" ∷ []) inbox.client.keys.world).1).0
    ≡ ok question
unfolding payload_of
question_made = refl

abbrev replied : Outcome (Unit {0}) × Client ℕ
replied = reply toy_nacl toy_codec [] toy_signing toy_net same heard (bytes (text "yes")) toy_client

replied_ok : replied ≡ (ok tt, replied.1)
unfolding reply send_reply new_reply_payload new_binary_payload choose_message_id send_timeout
    send_processed new_payloads batches batch_of_one new_outbound_message sign_each data_at
    block_hash_of write_each client_message_bytes write_message put
replied_ok = refl

reply-IsDelivered_example :
    (r : IsReplied toy_nacl toy_codec [] toy_signing toy_net same heard toy_client replied.1)
    × ((m : InboundMessage) (data_ : Bytes)
        → deliver_reply toy_nacl toy_codec [] m r.payload data_ asked.1
          ≡ deliver_to toy_nacl toy_codec [] (some (new_emitter 1 false)) m r.payload data_ asked.1)
reply-IsDelivered_example =
    reply-IsDelivered toy_nacl toy_codec [] [] toy_signing toy_signing toy_net toy_net same same
      same (text "bob" ∷ []) (ready question) plain inbox asked.1 question heard
      (bytes (text "yes")) toy_client replied.1 asked_ok question_made refl refl refl refl refl
      replied_ok
