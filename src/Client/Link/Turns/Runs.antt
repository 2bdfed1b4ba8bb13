-- ===== src/Client/Link/Turns/Runs.antt =====
-- client.go: a run of a running client, with its turns in any order.
use nkn_sdk_go.Base.{
  ℕ, false, ◌≡◌, ◌≢◌, refl, sym, ap, ◌∙◌, not, ◌&&◌, List, [], ◌∷◌, Option, none, some,
}
use nkn_sdk_go.Base.Int.{ℤ}
use nkn_sdk_go.Base.Bytes.{Bytes}
use nkn_sdk_go.Errors.{Outcome, ok, err, panic}
use nkn_sdk_go.Action.{continue}
use nkn_sdk_go.Action.Fine.{Fine, continue-Fine, if-Fine}
use nkn_sdk_go.Action.Keeps.{continue-at, if-result}
use nkn_sdk_go.Message.{Nacl, Codec}
use nkn_sdk_go.Client.State.{Node, Net, close_client, write_message, adopt_connection}
use nkn_sdk_go.Client.State.Invariant.{
  IsCalm, write_message-IsValid, close_client-IsValid, record_send_failure-IsValid,
}
use nkn_sdk_go.Client.Handling.{Json, Wire, Reader, Job, Frame, on_client, run_job, handle_message}
use nkn_sdk_go.Client.Handling.Jobs.{WireIsCalm, reconnect-Fine, run_job-Fine}
use nkn_sdk_go.Client.Link.{
  Link, Socket, absent, tests, Turn, user_closes, user_reconnects, user_writes, counts_failure,
  divided, runs_job, tests_closed, reads_frame, read_fails, pings, stops_pinging, greets,
  takes_request, finds_node, adopts, starts_loops, returns, is_testing, is_reading, is_running,
  job_at, logged, on_reader, client_of, set_loop, ask_again, run_some, test_closed, fail_read,
  stop_pinging, take_request,
}
use nkn_sdk_go.Client.Link.Turns.{adopt, start_loops, read_frame, take_turn}
use nkn_sdk_go.Client.Handling.Text.{JsonIsCalm}
use nkn_sdk_go.Client.Handling.Safety.{IsNotBinary, IsWholeFrame, handle_message-IsSafe}
use nkn_sdk_go.Client.Link.Turns.Parts.{is_part_send, take_part-IsValid}
use nkn_sdk_go.Client.Link.Attended.{IsAttended}
use nkn_sdk_go.Client.Link.Turns.{take_turns, new_link}
use nkn_sdk_go.Client.Link.{new_client}
use nkn_sdk_go.Client.Keys.{Keys}
use nkn_sdk_go.Channel.{new_emitter}
use nkn_sdk_go.Client.Link.Turns.Steady.{logged-at}
use nkn_sdk_go.Client.Link.Turns.Order.{Loses, take_turn-IsAttended}
use nkn_sdk_go.Client.Link.Turns.Safety.{
  SocketIsCalm, HasValid, logged-Fine, ask_again-Fine, take_from-Fine, return_from-Fine, ping-Fine,
  greet-Fine, adopt_in-Fine, start_from-Fine,
}

module _ {W : Type 0} (nacl : Nacl W) (codec : Codec) (secret : Bytes) (json : Json W) (wire : Wire)
    (net : Net W) (socket : Socket W) (address : Bytes) where
  -- None of the calls outside panics.
  pub record IsQuiet : Type 0 where
    pub calm_net : IsCalm net
    pub calm_socket : SocketIsCalm socket
    pub calm_wire : WireIsCalm wire
    pub calm_json : JsonIsCalm json

  run_some-Fine :
      (k : ℕ) (o : Option Job) (l : Link W)
      → IsQuiet
      → HasValid l
      → Fine HasValid (run_some (run_job nacl codec secret wire net) k o l)
  run_some-Fine k none l quiet v = (λ h. cc, v)
  run_some-Fine k (some j) l quiet v =
      run_job-Fine nacl codec secret wire net j (client_of l) quiet.calm_net quiet.calm_wire v

  -- The turn handles no binary message, and is no part that is a send with no lock held.
  abbrev pub IsCalmTurn : Turn → Type 0
  IsCalmTurn (reads_frame n now frame) = IsNotBinary nacl codec secret json wire net frame
  IsCalmTurn (divided p) = is_part_send p ≡ false
  IsCalmTurn user_closes = Unit
  IsCalmTurn (user_reconnects target) = Unit
  IsCalmTurn (user_writes buf) = Unit
  IsCalmTurn counts_failure = Unit
  IsCalmTurn (runs_job k) = Unit
  IsCalmTurn (tests_closed n) = Unit
  IsCalmTurn (read_fails n) = Unit
  IsCalmTurn (pings n) = Unit
  IsCalmTurn (stops_pinging n) = Unit
  IsCalmTurn (greets n timed_out) = Unit
  IsCalmTurn takes_request = Unit
  IsCalmTurn (finds_node node) = Unit
  IsCalmTurn (adopts now answer) = Unit
  IsCalmTurn starts_loops = Unit
  IsCalmTurn returns = Unit

  -- A JSON message has all members that its handling reads.
  abbrev pub IsWholeTurn : Turn → Type 0
  IsWholeTurn (reads_frame n now frame) = IsWholeFrame nacl codec secret json wire net frame
  IsWholeTurn (divided p) = Unit
  IsWholeTurn user_closes = Unit
  IsWholeTurn (user_reconnects target) = Unit
  IsWholeTurn (user_writes buf) = Unit
  IsWholeTurn counts_failure = Unit
  IsWholeTurn (runs_job k) = Unit
  IsWholeTurn (tests_closed n) = Unit
  IsWholeTurn (read_fails n) = Unit
  IsWholeTurn (pings n) = Unit
  IsWholeTurn (stops_pinging n) = Unit
  IsWholeTurn (greets n timed_out) = Unit
  IsWholeTurn takes_request = Unit
  IsWholeTurn (finds_node node) = Unit
  IsWholeTurn (adopts now answer) = Unit
  IsWholeTurn starts_loops = Unit
  IsWholeTurn returns = Unit

  -- What a turn leaves: a well-formed client, and no panic but by a binary message or a send with no lock held.
  abbrev pub IsSound : Turn → Outcome (Unit {0}) × Link W → Type 0
  IsSound x r = (IsCalmTurn x → r.0 ≢ panic) × HasValid r.1

  abbrev turn : Turn → Link W → Outcome (Unit {0}) × Link W
  turn = take_turn nacl codec secret json wire net socket address

  abbrev pub all_turns : List Turn → Link W → Outcome (Unit {0}) × Link W
  all_turns = take_turns nacl codec secret json wire net socket address

  fine : (x : Turn) (l : Link W) → Fine HasValid (turn x l) → IsSound x (turn x l)
  fine x l (calm, v) = (λ t. calm, v)

  read_frame-IsSound :
      (n : ℕ) (now : ℤ) (frame : Frame) (l : Link W)
      → IsQuiet
      → IsWholeFrame nacl codec secret json wire net frame
      → HasValid l
      → IsSound
          (reads_frame n now frame)
          (read_frame nacl codec secret json wire net socket address n now frame l)
  unfolding read_frame
  read_frame-IsSound n now frame l quiet whole v =
      let r = on_reader (handle_message nacl codec secret json wire net now frame) l in
      let safe =
        handle_message-IsSafe nacl codec secret json wire net now frame l.reader quiet.calm_net
          quiet.calm_json v whole in
      (
        λ t.
            (if-Fine HasValid (is_reading (l.loops n)) _ _
              (continue-Fine HasValid (logged r) (λ u. set_loop n tests)
                (logged-Fine HasValid r (safe.calm t, safe.valid)) λ u s w. (λ h. cc, w))
              (λ h. cc, v)).0,
        if-result HasValid (is_reading (l.loops n)) _ _
            (continue-at HasValid (logged r) (λ u. set_loop n tests)
              (logged-at HasValid r safe.valid) λ u. logged-at HasValid r safe.valid)
            v,
      )

  take_turn-IsSound :
      (x : Turn) (l : Link W)
      → IsQuiet
      → IsWholeTurn x
      → HasValid l
      → IsSound x (take_turn nacl codec secret json wire net socket address x l)
  unfolding take_turn test_closed fail_read stop_pinging take_request adopt start_loops
  take_turn-IsSound user_closes l quiet whole v =
      let (calm, v', final) = close_client-IsValid net (client_of l) quiet.calm_net v in
      fine user_closes l
        (logged-Fine HasValid (on_reader (on_client (close_client net)) l) (calm, v'))
  take_turn-IsSound (divided p) l quiet whole v =
      let (late, v') = take_part-IsValid net p (client_of l) quiet.calm_net v in
      (λ t h. absurd (cc (late h, t)), v')
  take_turn-IsSound (user_reconnects node) l quiet whole v =
      fine (user_reconnects node) l (reconnect-Fine node (client_of l) v)
  take_turn-IsSound (user_writes buf) l quiet whole v =
      let (calm, v', same) = write_message-IsValid net buf (client_of l) quiet.calm_net v in
      fine (user_writes buf) l
        (logged-Fine HasValid (on_reader (on_client (write_message net buf)) l) (calm, v'))
  take_turn-IsSound counts_failure l quiet whole v =
      (λ t h. cc, record_send_failure-IsValid (client_of l) v)
  take_turn-IsSound (runs_job k) l quiet whole v =
      fine (runs_job k) l (run_some-Fine k (job_at k l.reader.jobs) l quiet v)
  take_turn-IsSound (tests_closed n) l quiet whole v =
      fine (tests_closed n) l
        (if-Fine HasValid (is_testing (l.loops n)) _ _ (λ h. cc, v) (λ h. cc, v))
  take_turn-IsSound (reads_frame n now frame) l quiet whole v =
      read_frame-IsSound n now frame l quiet whole v
  take_turn-IsSound (read_fails n) l quiet whole v = fine (read_fails n) l (
      if-Fine HasValid (is_reading (l.loops n)) _ _
        (continue-Fine HasValid (ask_again l) (λ u. set_loop n absent) (ask_again-Fine l v)
          λ u s w. (λ h. cc, w))
        (λ h. cc, v))
  take_turn-IsSound (pings n) l quiet whole v =
      fine (pings n) l (ping-Fine socket net address quiet.calm_net quiet.calm_socket n l v)
  take_turn-IsSound (stops_pinging n) l quiet whole v =
      fine (stops_pinging n) l (
        if-Fine HasValid (l.pingers n && not (is_running (l.loops n))) _ _ (λ h. cc, v)
          (λ h. cc, v))
  take_turn-IsSound (greets n timed_out) l quiet whole v =
      fine (greets n timed_out) l
        (greet-Fine socket net address quiet.calm_net quiet.calm_socket n timed_out l v)
  take_turn-IsSound takes_request l quiet whole v =
      fine takes_request l (take_from-Fine l.phase (client_of l).handler l v)
  take_turn-IsSound (finds_node node) l quiet whole v = (λ t h. cc, v)
  take_turn-IsSound (adopts now answer) l quiet whole v =
      fine (adopts now answer) l
        (adopt_in-Fine socket net address quiet.calm_net quiet.calm_socket l.phase now answer l v)
  take_turn-IsSound starts_loops l quiet whole v =
      fine starts_loops l
        (start_from-Fine socket net address quiet.calm_net quiet.calm_socket l.phase l v)
  take_turn-IsSound returns l quiet whole v = fine returns l (return_from-Fine l.phase l v)

  abbrev pub AllTurns : (Turn → Type 0) → List Turn → Type 0
  AllTurns P [] = Unit
  AllTurns P (x ∷ xs) = P x × AllTurns P xs

  -- What follows a turn that has these properties.
  run_on-IsSound :
      (A B : Type 0) (xs : List Turn) (r : Outcome (Unit {0}) × Link W)
      → (A → r.0 ≢ panic)
      → HasValid r.1
      → ((B → (all_turns xs r.1).0 ≢ panic) × HasValid (all_turns xs r.1).1)
      → (A × B → (continue r (λ u. all_turns xs)).0 ≢ panic)
        × HasValid (continue r (λ u. all_turns xs)).1
  run_on-IsSound A B xs (ok u, l) calm v (calm', v') = (λ t. calm' t.1, v')
  run_on-IsSound A B xs (err e, l) calm v rest = (λ t h. cc, v)
  run_on-IsSound A B xs (panic, l) calm v rest = (λ t. calm t.0, v)

  -- In a run of any turns, among them the parts of `Reconnect`, of the reply to setClient and of the answer
  -- to a challenge taken apart, the client stays well formed, if the JSON messages have the members that
  -- their handling reads and the calls outside do not panic; and it panics only by a binary message or by
  -- one of these parts that is a send with no lock held.
  pub take_turns-IsSound :
      (xs : List Turn) (l : Link W)
      → IsQuiet
      → AllTurns IsWholeTurn xs
      → HasValid l
      → (AllTurns IsCalmTurn xs → (all_turns xs l).0 ≢ panic) × HasValid (all_turns xs l).1
  unfolding take_turns
  take_turns-IsSound [] l quiet whole v = (λ t h. cc, v)
  take_turns-IsSound (x ∷ xs) l quiet (w, whole) v =
      let (calm, v') = take_turn-IsSound x l quiet w v in
      run_on-IsSound (IsCalmTurn x) (AllTurns IsCalmTurn xs) xs (turn x l) calm v'
        (take_turns-IsSound xs (turn x l).1 quiet whole v')

  -- No request is lost in the run.
  abbrev pub KeepsRequests : List Turn → Link W → Type 0
  KeepsRequests [] l = Unit
  KeepsRequests (x ∷ xs) l =
      (¬ Loses nacl codec secret json wire net socket address x l) × KeepsRequests xs (turn x l).1

  -- In a run in which no request is lost, the JSON messages have the members that their handling reads and
  -- the calls outside do not panic, an open client stays connected or asked to connect: whenever
  -- `handleReconnect` waits and has no request, the loop of the client's connection runs.
  pub take_turns-IsAttended :
      (xs : List Turn) (l : Link W)
      → IsQuiet
      → AllTurns IsWholeTurn xs
      → HasValid l
      → KeepsRequests xs l
      → IsAttended l
      → IsAttended (all_turns xs l).1
  unfolding take_turns
  take_turns-IsAttended [] l quiet whole v kept a = a
  take_turns-IsAttended (x ∷ xs) l quiet (w, whole) v (k, kept) a =
      let (calm, v') = take_turn-IsSound x l quiet w v in
      let a' = take_turn-IsAttended nacl codec secret json wire net socket address x l v k a in
      continue-at IsAttended (turn x l) (λ u. all_turns xs) a'
        λ u. take_turns-IsAttended xs (turn x l).1 quiet whole v' kept a'

-- A client that `NewClient` has made and connected is well formed and attended.
pub new_link-IsAttended :
    {W : Type 0} (socket : Socket W) (net : Net W) (address : Bytes) (size : ℕ) (keys : Keys W)
    (r : Reader W) (node : Node) (now : ℤ) (answer : Outcome Bytes)
    → r.inbox.client ≡ new_client size keys
    → HasValid (new_link socket net address r node now answer)
      × IsAttended (new_link socket net address r node now answer)
unfolding new_link new_client adopt_connection new_emitter
new_link-IsAttended socket net address size keys r node now answer made = (
  record {
    connect_closed = ap (λ c. c.on_connect.closed) made ∙ sym (ap (λ c. c.is_closed) made);
    message_closed = ap (λ c. c.on_message.closed) made ∙ sym (ap (λ c. c.is_closed) made);
    event_closed = ap (λ c. c.on_message_event.closed) made ∙ sym (ap (λ c. c.is_closed) made);
    reconnect_closed_eq = ap (λ c. c.reconnect_closed) made ∙ sym (ap (λ c. c.is_closed) made);
    challenge_closed =
        ap (λ c. c.challenge_signature.closed) made ∙ sym (ap (λ c. c.is_closed) made);
    has_conn = λ h. cc;
  },
  λ o h. refl,
)
