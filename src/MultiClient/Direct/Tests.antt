-- ===== src/MultiClient/Direct/Tests.antt =====
-- multiclient.go: a message that a client of a given number sends.
use nkn_sdk_go.Base.{ℕ, ◌≡◌, refl, true, false, none, some, List, [], ◌∷◌}
use nkn_sdk_go.Base.Int.{pos}
use nkn_sdk_go.Base.Bytes.{Bytes, text}
use nkn_sdk_go.Identifier.{add_multi_client_prefix, add_identifier}
use nkn_sdk_go.Identifier.Decimal.{itoa}
use nkn_sdk_go.Errors.{Outcome, ok, err, nil_client}
use nkn_sdk_go.Action.{Action}
use nkn_sdk_go.Channel.{Emitter, new_emitter, receive}
use nkn_sdk_go.Message.{bytes, new_message_payload, new_binary_payload, choose_message_id}
use nkn_sdk_go.Client.State.{Message, write_message}
use nkn_sdk_go.Client.Outbound.{client_message_bytes, sign_each, data_at, block_hash_of}
use nkn_sdk_go.Client.Batch.{
  new_payloads, new_outbound_message, batch_of_one, batches, write_each, send_processed,
  send_timeout,
}
use nkn_sdk_go.Client.Send.{SendConfig}
use nkn_sdk_go.MultiClient.Policy.{no_cross_send}
use nkn_sdk_go.MultiClient.Sending.{send_with_client, final_dests}
use nkn_sdk_go.MultiClient.Spread.{Dispatch}
use nkn_sdk_go.MultiClient.Direct.{send_by}
use nkn_sdk_go.Fixtures.Boxes.{toy_nacl}
use nkn_sdk_go.Fixtures.Codecs.{toy_codec, put}
use nkn_sdk_go.Fixtures.Clients.{toy_client, toy_net, toy_signing}

abbrev two : Dispatch ℕ
two = record {
  multi = record {
    clients = (pos 0, none) ∷ (pos 1, some toy_client) ∷ [];
    policy = no_cross_send;
    num_sub_clients = 2;
    original_client = false;
  };
  events = record { buffer = []; size = 1; closed = false; has_callback = true; called = [] };
  response_channels = [];
  sent = 0;
  errs = [];
}

abbrev plain : SendConfig
plain = record {
  unencrypted = true;
  no_reply = false;
  max_holding_seconds = pos 0;
  message_id = text "q";
}

abbrev same : List Bytes → Action ℕ (List Bytes)
same ds w = (ok ds, w)

abbrev after : Outcome (Emitter Message) × Dispatch ℕ
after =
    send_by toy_nacl toy_codec [] toy_signing toy_net same same (pos 1) (text "bob" ∷ [])
      (bytes (text "hi")) plain 0 two

after_ok :
    (after ≡ (ok (new_emitter 1 false), after.1))
    × (after.1.response_channels ≡ (pos 1, text "q") ∷ [])
unfolding send_by send_with_client final_dests add_multi_client_prefix add_identifier itoa
    send_timeout send_processed new_payloads batches batch_of_one new_outbound_message sign_each
    data_at block_hash_of write_each client_message_bytes write_message receive put
    new_message_payload new_binary_payload choose_message_id
after_ok = (refl, refl)

nobody :
    (send_by toy_nacl toy_codec [] toy_signing toy_net same same
      (pos 0)
      (text "bob" ∷ [])
      (bytes (text "hi"))
      plain
      0
      two)
    ≡ (err nil_client, two)
unfolding send_by
nobody = refl
