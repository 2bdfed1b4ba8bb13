-- ===== src/Client/Handling/Tests.antt =====
-- client.go: the message that `setClient` was refused.
use nkn_sdk_go.Base.{[]}
use nkn_sdk_go.Base.Int.{pos}
use nkn_sdk_go.Client.Handling.{handle_message}
use nkn_sdk_go.Client.Handling.Safety.{IsSafe, handle_message-IsSafe}
use nkn_sdk_go.Fixtures.Boxes.{toy_nacl}
use nkn_sdk_go.Fixtures.Codecs.{toy_codec}
use nkn_sdk_go.Fixtures.Messages.{
  reader, refusal, toy_json, toy_wire, toy_json-IsCalm, refusal-IsWhole,
}
use nkn_sdk_go.Fixtures.Clients.{toy_net, toy_net-IsCalm, toy_client-IsValid}

handle_message-IsSafe_example :
    IsSafe toy_nacl toy_codec [] toy_json toy_wire toy_net refusal reader
      (handle_message toy_nacl toy_codec [] toy_json toy_wire toy_net (pos 0) refusal reader)
handle_message-IsSafe_example =
    handle_message-IsSafe toy_nacl toy_codec [] toy_json toy_wire toy_net (pos 0) refusal reader
      toy_net-IsCalm toy_json-IsCalm toy_client-IsValid refusal-IsWhole
