-- ===== src/Client/Link/Turns.antt =====
-- client.go: the turns of the goroutines of a running client that call the network, and a run of turns.
-- `Reconnect`, the reply to setClient and the answer to a challenge hold no lock between a test and their
-- send: their parts are turns too. The other turns are undivided.
pub mod Parts
pub mod Steady
pub mod Order
pub mod Safety
pub mod Runs
pub mod Restless
pub mod Leftover
mod Tests
use nkn_sdk_go.Base.{
  ℕ, zero, suc, ◌==◌, Bool, true, false, not, ◌&&◌, List, [], ◌∷◌, ◌++◌, Option, none, some,
  if◌then◌else◌,
}
use nkn_sdk_go.Base.Int.{ℤ, pos}
use nkn_sdk_go.Base.Bytes.{Bytes, bytes_eq}
use nkn_sdk_go.Errors.{Outcome, ok, err, panic}
use nkn_sdk_go.Action.{Action, pure, modify, ◌>>=◌, ◌>>◌}
use nkn_sdk_go.Channel.{Emitter, Received, value, nil_value, blocked, next, new_emitter}
use nkn_sdk_go.Message.{Nacl, Codec, is_nil}
use nkn_sdk_go.Client.Keys.{Keys}
use nkn_sdk_go.Client.State.Lifecycle.{
  step, tests_reconnect, sends_reconnect, sets_client, announces, sends_challenge,
}
use nkn_sdk_go.Client.State.{
  Client, Node, Net, Handler, waiting, busy, connecting, outside, close_client, reconnect,
  write_message, record_send_failure, adopt_connection,
}
use nkn_sdk_go.Client.Handling.{Json, Wire, Reader, Job, Frame, on_client, run_job, handle_message}
use nkn_sdk_go.Client.Link.{
  LoopState, Phase, Link, Socket, Turn, set_at, is_testing, is_reading, is_running, if_finished,
  rpc_servers, job_at, without_job, logged, new_client, keep_node, on_reader, client_of, set_loop,
  set_phase, when, ask_again, or_reconnect, run_some, test_closed, fail_read, set_pinger,
  set_greeter, stop_pinging, take_from, take_request, with_client, return_from, begin_loops, absent,
  tests, reads, resting, dialing, starting, returning, ended, user_closes, user_reconnects, divided,
  Part, tests_part, sends_part, set_client_part, announce_part, challenge_part, user_writes,
  counts_failure, runs_job, tests_closed, reads_frame, read_fails, pings, stops_pinging, greets,
  takes_request, finds_node, adopts, starts_loops, returns,
}

module _ {W : Type 0} (socket : Socket W) (net : Net W) (address : Bytes) where
  -- A tick of the goroutine that pings.
  pub ping : ℕ → Action (Link W) (Unit {0})
  ping n =
      when (λ l. l.pingers n)
        λ l.
          or_reconnect (on_reader (on_client (outside (socket.write_ping n))) l)
            (set_pinger n false)

  abbrev pub request : ℕ → Option (Bytes × Bytes) → Action (Link W) (Unit {0})
  request n proof l =
      let (o, l') =
        or_reconnect (on_reader (on_client (outside (socket.write_request n address proof))) l)
          (pure tt) in
      (o, record l' { greeters = set_at n false l'.greeters })

  abbrev pub with_proof :
      ℕ → Received (Bytes × Bytes) × Emitter (Bytes × Bytes) → Action (Link W) (Unit {0})
  with_proof n (value x, e) l =
      request n (some x) (with_client (λ c. record c { challenge_signature = e }) l)
  with_proof n (nil_value, e) l = request n none l
  with_proof n (blocked, e) l = (ok tt, l)

  -- The goroutine for `setClient`: after the time is over, or with what the channel gives.
  pub greet : ℕ → Bool → Action (Link W) (Unit {0})
  unfolding next
  greet n timed_out =
      when (λ l. l.greeters n)
        λ l.
          if timed_out
          then request n none l
          else with_proof n (next (client_of l).challenge_signature) l

  -- The critical section of `connectToNode`.
  abbrev pub adopt_in : Phase → ℤ → Outcome Bytes → Action (Link W) (Unit {0})
  adopt_in (dialing (some node)) now answer l = (
    ok tt,
    record (with_client (adopt_connection l.dialed node now (rpc_servers socket node answer)) l) {
      phase = starting (client_of l).conn l.dialed;
      dialed = suc l.dialed;
    },
  )
  adopt_in (dialing none) now answer l = (ok tt, l)
  adopt_in resting now answer l = (ok tt, l)
  adopt_in (starting p n) now answer l = (ok tt, l)
  adopt_in returning now answer l = (ok tt, l)
  adopt_in ended now answer l = (ok tt, l)

  pub adopt : ℤ → Outcome Bytes → Action (Link W) (Unit {0})
  unfolding adopt_connection
  adopt now answer l = adopt_in l.phase now answer l

  -- `if prevConn != nil { prevConn.Close() }`
  abbrev pub close_previous : Option ℕ → Action (Link W) (Unit {0})
  close_previous none l = (ok tt, l)
  close_previous (some p) l = logged (on_reader (on_client (outside (net.close_conn p))) l)

  abbrev pub start_from : Phase → Action (Link W) (Unit {0})
  start_from (starting prev n) = do
    close_previous prev
    modify (λ l. record (begin_loops n l) { phase = returning })
  start_from resting = pure tt
  start_from (dialing k) = pure tt
  start_from returning = pure tt
  start_from ended = pure tt

  pub start_loops : Action (Link W) (Unit {0})
  start_loops l = start_from l.phase l

  -- After `NewClient`, whose call of `connect` found `node`.
  pub new_link : Reader W → Node → ℤ → Outcome Bytes → Link W
  unfolding adopt_connection
  new_link r node now answer = begin_loops 0 (
      with_client (adopt_connection 0 node now (rpc_servers socket node answer)) (record {
        reader = r;
        loops = λ n. absent;
        pingers = λ n. false;
        greeters = λ n. false;
        phase = resting;
        dialed = 1;
      }))

-- A part is a step of State/Lifecycle.
pub take_part : {W : Type 0} → Net W → Part → Action (Client W) (Unit {0})
unfolding step
take_part net tests_part = step net tests_reconnect
take_part net (sends_part target) = step net (sends_reconnect target)
take_part net (set_client_part hash now) = step net (sets_client hash now)
take_part net (announce_part target) = step net (announces target)
take_part net (challenge_part salt signature) = step net (sends_challenge salt signature)

module _ {W : Type 0} (nacl : Nacl W) (codec : Codec) (secret : Bytes) (json : Json W) (wire : Wire)
    (net : Net W) (socket : Socket W) (address : Bytes) where
  -- A message was read; an error of its handling is logged.
  pub read_frame : ℕ → ℤ → Frame → Action (Link W) (Unit {0})
  read_frame n now frame =
      when (λ l. is_reading (l.loops n))
        (do
          (λ l. logged (on_reader (handle_message nacl codec secret json wire net now frame) l))
          set_loop n tests)

  -- One turn.
  pub take_turn : Turn → Action (Link W) (Unit {0})
  unfolding test_closed read_frame fail_read ping stop_pinging greet take_request adopt start_loops
      take_part
  take_turn user_closes l = logged (on_reader (on_client (close_client net)) l)
  take_turn (divided p) l = on_reader (on_client (take_part net p)) l
  take_turn (user_reconnects node) l = on_reader (on_client (reconnect node)) l
  take_turn (user_writes buf) l = logged (on_reader (on_client (write_message net buf)) l)
  take_turn counts_failure l = (ok tt, with_client record_send_failure l)
  take_turn (runs_job k) l =
      run_some (run_job nacl codec secret wire net) k (job_at k l.reader.jobs) l
  take_turn (tests_closed n) l = test_closed n l
  take_turn (reads_frame n now frame) l = read_frame n now frame l
  take_turn (read_fails n) l = fail_read n l
  take_turn (pings n) l = ping socket net address n l
  take_turn (stops_pinging n) l = stop_pinging n l
  take_turn (greets n timed_out) l = greet socket net address n timed_out l
  take_turn takes_request l = take_request l
  take_turn (finds_node node) l = set_phase (keep_node l.phase node) l
  take_turn (adopts now answer) l = adopt socket net address now answer l
  take_turn starts_loops l = start_loops socket net address l
  take_turn returns l = return_from l.phase l

  pub take_turns : List Turn → Action (Link W) (Unit {0})
  unfolding take_turn
  take_turns [] = pure tt
  take_turns (x ∷ xs) = do take_turn x; take_turns xs
