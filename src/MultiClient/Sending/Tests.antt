-- ===== src/MultiClient/Sending/Tests.antt =====
-- multiclient.go: a send of two clients that are missing, and client numbers.
use nkn_sdk_go.Base.{ℕ, ◌≡◌, refl, true, false, length, none, List, [], ◌∷◌}
use nkn_sdk_go.Base.Int.{ℤ, pos, negsuc}
use nkn_sdk_go.Base.Bytes.{text}
use nkn_sdk_go.Errors.{ok, nil_client}
use nkn_sdk_go.Message.{Payload, ack}
use nkn_sdk_go.MultiClient.Policy.{no_cross_send, clients_by_policy}
use nkn_sdk_go.MultiClient.Sending.{
  MultiClient, failed, send, send_each, send_with_client, unique_client_ids, unique_from,
}
use nkn_sdk_go.MultiClient.Sending.Result.{send-AllFailed}
use nkn_sdk_go.MultiClient.Sending.Trace.{Sends, failures}
use nkn_sdk_go.Fixtures.Boxes.{toy_nacl}
use nkn_sdk_go.Fixtures.Codecs.{toy_codec}
use nkn_sdk_go.Fixtures.Clients.{toy_net, toy_signing}

abbrev repeated : List ℤ
repeated = negsuc 0 ∷ pos 2 ∷ negsuc 0 ∷ pos 1 ∷ pos 2 ∷ []

unique_repeated : unique_client_ids repeated ≡ negsuc 0 ∷ pos 2 ∷ pos 1 ∷ []
unfolding unique_client_ids unique_from
unique_repeated = refl

abbrev missing : MultiClient ℕ
missing = record {
  clients = (pos 0, none) ∷ (pos 1, none) ∷ [];
  policy = no_cross_send;
  num_sub_clients = 2;
  original_client = false;
}

abbrev received : Payload
received = record {
  type = ack;
  message_id = [];
  content = [];
  reply_to_id = text "q";
  no_reply = false;
}

fails :
    send toy_nacl toy_codec [] toy_signing toy_net
      (λ ds w. (ok ds, w))
      (pos 0)
      []
      received
      true
      (pos 0)
      missing
    ≡ (ok (failed (nil_client ∷ nil_client ∷ [])), missing)
unfolding send send_each send_with_client clients_by_policy
fails = refl

send-AllFailed_example :
    (length (nil_client ∷ nil_client ∷ [])
      ≡ length (clients_by_policy no_cross_send (pos 0) missing.clients))
    × Sends toy_nacl toy_codec [] toy_signing toy_net
        (λ ds w. (ok ds, w))
        []
        received
        true
        (pos 0)
        (failures
          (clients_by_policy no_cross_send (pos 0) missing.clients)
          (nil_client ∷ nil_client ∷ []))
        missing
        missing
send-AllFailed_example =
    send-AllFailed toy_nacl toy_codec [] toy_signing toy_net (λ ds w. (ok ds, w)) (pos 0) []
      received true (pos 0) (nil_client ∷ nil_client ∷ []) missing missing fails
