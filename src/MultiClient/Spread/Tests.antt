-- ===== src/MultiClient/Spread/Tests.antt =====
-- multiclient.go: a send by a client that is connected, one that is missing, and one that is closed.
use nkn_sdk_go.Base.{ℕ, ◌≡◌, refl, true, false, none, some, List, [], ◌∷◌}
use nkn_sdk_go.Base.Int.{pos}
use nkn_sdk_go.Base.Bytes.{Bytes, text}
use nkn_sdk_go.Identifier.{add_multi_client_prefix, add_identifier}
use nkn_sdk_go.Identifier.Decimal.{itoa}
use nkn_sdk_go.Errors.{Outcome, ok}
use nkn_sdk_go.Action.{Action}
use nkn_sdk_go.Channel.{receive}
use nkn_sdk_go.Message.{Payload, binary, ready}
use nkn_sdk_go.Client.State.{write_message}
use nkn_sdk_go.Client.Outbound.{client_message_bytes, sign_each, data_at, block_hash_of}
use nkn_sdk_go.Client.Batch.{
  new_payloads, new_outbound_message, batch_of_one, batches, write_each, send_processed,
  send_timeout,
}
use nkn_sdk_go.Client.Send.{SendConfig, payload_of}
use nkn_sdk_go.MultiClient.Policy.{no_cross_send, clients_by_policy}
use nkn_sdk_go.MultiClient.Sending.{
  MultiClient, SendResult, delivered, send_with_client, unique_client_ids, unique_from, final_dests,
}
use nkn_sdk_go.MultiClient.Spread.{Dispatch, report_client, try_each, dispatch, send_out}
use nkn_sdk_go.Fixtures.Boxes.{toy_nacl}
use nkn_sdk_go.Fixtures.Codecs.{toy_codec, put}
use nkn_sdk_go.Fixtures.Clients.{toy_client, toy_net, toy_signing}

abbrev three : MultiClient ℕ
three = record {
  clients =
      (pos 0, some toy_client)
      ∷ (pos 1, none)
      ∷ (pos 2, some (record toy_client { is_closed = true }))
      ∷ [];
  policy = no_cross_send;
  num_sub_clients = 3;
  original_client = false;
}

abbrev hello : Payload
hello = record {
  type = binary;
  message_id = text "q";
  content = text "hi";
  reply_to_id = [];
  no_reply = false;
}

abbrev plain : SendConfig
plain = record {
  unencrypted = true;
  no_reply = false;
  max_holding_seconds = pos 0;
  message_id = [];
}

abbrev same : List Bytes → Action ℕ (List Bytes)
same ds w = (ok ds, w)

abbrev idle : Dispatch ℕ
idle = record {
  multi = three;
  events = record { buffer = []; size = 1; closed = false; has_callback = true; called = [] };
  response_channels = [];
  sent = 0;
  errs = [];
}

abbrev after : Outcome SendResult × Dispatch ℕ
after =
    dispatch toy_nacl toy_codec [] toy_signing toy_net same (pos 0) (text "bob" ∷ []) hello plain
      idle

after_ok : after ≡ (ok delivered, after.1)
unfolding dispatch try_each report_client send_with_client clients_by_policy unique_client_ids
    unique_from final_dests add_multi_client_prefix add_identifier itoa send_timeout send_processed
    new_payloads batches batch_of_one new_outbound_message sign_each data_at block_hash_of
    write_each client_message_bytes write_message receive put
after_ok = refl

abbrev after_all : Outcome SendResult × Dispatch ℕ
after_all =
    send_out toy_nacl toy_codec [] toy_signing toy_net same same (pos 0) (text "bob" ∷ [])
      (ready hello) plain 0 idle

after_all_ok : after_all ≡ after
unfolding send_out payload_of
after_all_ok = refl
