-- ===== src/Client/Link/Turns/Tests.antt =====
-- client.go: runs of a client with one connection.
use nkn_sdk_go.Base.{ℕ, suc, ◌≡◌, ◌≢◌, refl, true, false, List, [], ◌∷◌, none, arith}
use nkn_sdk_go.Base.Int.{pos}
use nkn_sdk_go.Base.Bytes.{text}
use nkn_sdk_go.Errors.{ok, panic}
use nkn_sdk_go.Client.State.{Client, busy}
use nkn_sdk_go.Client.Link.{
  divided, tests_part, sends_part, Link, Socket, absent, reads, resting, Turn, user_writes,
  tests_closed, reads_frame, read_fails, pings, greets, takes_request, finds_node, adopts,
  starts_loops, returns, set_at,
}
use nkn_sdk_go.Client.Link.Attended.{IsAttended}
use nkn_sdk_go.Client.Link.Turns.Safety.{SocketIsCalm, HasValid}
use nkn_sdk_go.Client.Link.Turns.Runs.{
  IsQuiet, AllTurns, IsCalmTurn, IsWholeTurn, all_turns, take_turns-IsSound, take_turns-IsAttended,
}
use nkn_sdk_go.Client.Link.Turns.Restless.{IsAsked, cycles, cycles-IsAsked}
use nkn_sdk_go.Fixtures.Boxes.{toy_nacl}
use nkn_sdk_go.Fixtures.Codecs.{toy_codec}
use nkn_sdk_go.Fixtures.Messages.{
  reader, refusal, toy_json, toy_wire, toy_json-IsCalm, toy_wire-IsCalm, refusal-IsWhole,
}
use nkn_sdk_go.Fixtures.Clients.{toy_client, toy_node, toy_net, toy_net-IsCalm, toy_client-IsValid}

abbrev toy_socket : Socket ℕ
toy_socket = record {
  write_request = λ n address proof w. (ok tt, suc w);
  write_ping = λ n w. (ok tt, suc w);
  url = λ b. b;
  finished = text "PERSIST_FINISHED";
}

toy_socket-IsCalm : SocketIsCalm toy_socket
toy_socket-IsCalm = record { calm_request = λ n address proof w h. cc; calm_ping = λ n w h. cc }

quiet : IsQuiet toy_nacl toy_codec [] toy_json toy_wire toy_net toy_socket []
quiet = record {
  calm_net = toy_net-IsCalm;
  calm_socket = toy_socket-IsCalm;
  calm_wire = toy_wire-IsCalm;
  calm_json = toy_json-IsCalm;
}

abbrev link : Link ℕ
link = record {
  reader = reader;
  loops = set_at 1 reads (λ n. absent);
  pingers = set_at 1 true (λ n. false);
  greeters = set_at 1 true (λ n. false);
  phase = resting;
  dialed = 2;
}

-- The connection fails, the client connects again, and `setClient` is refused there.
abbrev some_turns : List Turn
some_turns =
    user_writes (text "x")
    ∷ divided tests_part
    ∷ divided (sends_part none)
    ∷ read_fails 1
    ∷ takes_request
    ∷ finds_node toy_node
    ∷ adopts (pos 5) (ok (text "PERSIST_FINISHED"))
    ∷ starts_loops
    ∷ returns
    ∷ tests_closed 2
    ∷ greets 2 true
    ∷ pings 2
    ∷ reads_frame 2 (pos 6) refusal
    ∷ []

some_turns-whole :
    AllTurns toy_nacl toy_codec [] toy_json toy_wire toy_net toy_socket []
      (IsWholeTurn toy_nacl toy_codec [] toy_json toy_wire toy_net toy_socket [])
      some_turns
some_turns-whole =
    (tt, (tt, (tt, (tt, (tt, (tt, (tt, (tt, (tt, (tt, (tt, (tt, (refusal-IsWhole, tt)))))))))))))

take_turns-IsSound_example :
    (AllTurns toy_nacl toy_codec [] toy_json toy_wire toy_net toy_socket []
        (IsCalmTurn toy_nacl toy_codec [] toy_json toy_wire toy_net toy_socket [])
        some_turns
      → (all_turns toy_nacl toy_codec [] toy_json toy_wire toy_net toy_socket [] some_turns link).0
        ≢ panic)
    × HasValid
        (all_turns toy_nacl toy_codec [] toy_json toy_wire toy_net toy_socket [] some_turns link).1
take_turns-IsSound_example =
    take_turns-IsSound toy_nacl toy_codec [] toy_json toy_wire toy_net toy_socket [] some_turns link
      quiet some_turns-whole toy_client-IsValid

-- Without the write, so that the first turn is the failure of the connection.
abbrev more_turns : List Turn
more_turns =
    read_fails 1
    ∷ takes_request
    ∷ finds_node toy_node
    ∷ adopts (pos 5) (ok (text "PERSIST_FINISHED"))
    ∷ starts_loops
    ∷ returns
    ∷ tests_closed 2
    ∷ pings 2
    ∷ []

take_turns-IsAttended_example :
    IsAttended
      (all_turns toy_nacl toy_codec [] toy_json toy_wire toy_net toy_socket [] more_turns link).1
take_turns-IsAttended_example =
    take_turns-IsAttended toy_nacl toy_codec [] toy_json toy_wire toy_net toy_socket [] more_turns
      link quiet (tt, (tt, (tt, (tt, (tt, (tt, (tt, (tt, tt)))))))) toy_client-IsValid
      (
        (λ h. cc h.0),
        ((λ h. h), ((λ h. h), ((λ h. h), ((λ h. h), ((λ h. h), ((λ h. h), ((λ h. h), tt))))))),
      )
      (λ o h. refl)

abbrev asked_client : Client ℕ
asked_client = record toy_client { handler = busy none }

abbrev asked_link : Link ℕ
asked_link = record link {
  reader = record reader { inbox = record reader.inbox { client = asked_client } };
}

asked_link-IsAsked : IsAsked 1 asked_link
asked_link-IsAsked = record {
  phase_eq = refl;
  handler_eq = refl;
  open_client = refl;
  open_channel = refl;
  conn_eq = refl;
  loop_eq = refl;
  older = omega arith;
}

cycles-IsAsked_example :
    ((all_turns toy_nacl toy_codec [] toy_json toy_wire toy_net toy_socket []
        (cycles 3 toy_node (pos 5) (ok []) 1 2)
        asked_link).0
      ≡ ok tt)
    × ((all_turns toy_nacl toy_codec [] toy_json toy_wire toy_net toy_socket []
          (cycles 3 toy_node (pos 5) (ok []) 1 2)
          asked_link).1.dialed
        ≡ 5)
    × ((q : ℕ) × IsAsked q
          (all_turns toy_nacl toy_codec [] toy_json toy_wire toy_net toy_socket []
            (cycles 3 toy_node (pos 5) (ok []) 1 2)
            asked_link).1)
cycles-IsAsked_example =
    cycles-IsAsked toy_nacl toy_codec [] toy_json toy_wire toy_net toy_socket [] 3 1 toy_node
      (pos 5) (ok []) asked_link toy_net-IsCalm asked_link-IsAsked
