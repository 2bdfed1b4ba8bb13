-- ===== src/Client/State/Tests.antt =====
-- client.go: calls on a client on concrete inputs.
use nkn_sdk_go.Base.{List, [], ◌∷◌, none}
use nkn_sdk_go.Base.Int.{pos}
use nkn_sdk_go.Base.Bytes.{text}
use nkn_sdk_go.Client.State.Invariant.{IsValid}
use nkn_sdk_go.Client.State.Lifecycle.{
  Call, closes, tests_reconnect, sends_reconnect, announces, writes, sets_client, adopts, run,
  AllPanicLate, StaysClosed, run-IsValid,
}
use nkn_sdk_go.Fixtures.Clients.{toy_client, toy_client-IsValid, toy_net, toy_net-IsCalm, toy_node}

abbrev calls : List Call
calls =
    adopts 2 toy_node (pos 1000) []
    ∷ sets_client (text "ab") (pos 1001)
    ∷ writes (text "x")
    ∷ tests_reconnect
    ∷ closes
    ∷ sends_reconnect none
    ∷ announces none
    ∷ closes
    ∷ []

run-IsValid_example :
    AllPanicLate toy_net calls toy_client
    × IsValid (run toy_net calls toy_client)
    × StaysClosed toy_net toy_client (run toy_net calls toy_client)
run-IsValid_example = run-IsValid toy_net calls toy_client toy_net-IsCalm toy_client-IsValid
