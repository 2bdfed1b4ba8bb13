-- ===== src/Client/Link/Turns/Order.antt =====
-- client.go: a running client under each of its turns, and when a turn loses a request.
use nkn_sdk_go.Base.{ℕ, ◌≡◌, refl, not, ◌&&◌, some}
use nkn_sdk_go.Base.Int.{ℤ}
use nkn_sdk_go.Base.Bytes.{Bytes}
use nkn_sdk_go.Action.Keeps.{Keeps, continue-at, if-result}
use nkn_sdk_go.Message.{Nacl, Codec}
use nkn_sdk_go.Client.State.{Net, close_client, reconnect, write_message, record_send_failure}
use nkn_sdk_go.Client.State.Invariant.{IsValid}
use nkn_sdk_go.Client.State.Follows.{
  Follows-refl, reconnect-Follows, close_client-Follows, write_message-Follows,
  record_send_failure-Follows,
}
use nkn_sdk_go.Client.Handling.{Json, Wire, Frame, on_client, run_job, handle_message}
use nkn_sdk_go.Client.Handling.Follows.{run_job-Follows, handle_message-Later}
use nkn_sdk_go.Client.Link.{
  Link, Socket, tests, returning, Turn, user_closes, user_reconnects, user_writes, counts_failure,
  divided, runs_job, tests_closed, reads_frame, read_fails, pings, stops_pinging, greets,
  takes_request, finds_node, adopts, starts_loops, returns, is_testing, is_reading, is_running,
  job_at, logged, on_reader, client_of, set_loop, test_closed, stop_pinging, take_request,
}
use nkn_sdk_go.Client.Link.Turns.{adopt, start_loops, read_frame, take_part, take_turn}
use nkn_sdk_go.Client.Link.Turns.Parts.{take_part-Follows}
use nkn_sdk_go.Client.Link.Attended.{
  IsAttended, AttendedAt-Follows, AttendedAt-runs, AttendedAt-left,
}
use nkn_sdk_go.Client.Link.Turns.Steady.{
  logged-at, on_client-IsAttended, run_some-IsAttended, fail_read-IsAttended, take_from-IsAttended,
  keep_node-AttendedAt, return_from-IsAttended, ping-IsAttended, greet-IsAttended,
  adopt_in-IsAttended, start_from-IsAttended,
}

module _ {W : Type 0} (nacl : Nacl W) (codec : Codec) (secret : Bytes) (json : Json W) (wire : Wire)
    (net : Net W) (socket : Socket W) (address : Bytes) where
  read_frame-IsAttended :
      (n : ℕ) (now : ℤ) (frame : Frame)
      → Keeps IsAttended (read_frame nacl codec secret json wire net socket address n now frame)
  unfolding read_frame
  read_frame-IsAttended n now frame l a =
      let r = on_reader (handle_message nacl codec secret json wire net now frame) l in
      let a' =
        AttendedAt-Follows l.phase (client_of l) (client_of r.1) l.loops
          (handle_message-Later (client_of l) nacl codec secret wire net json now frame l.reader
            (Follows-refl (client_of l)))
          a in
      if-result IsAttended (is_reading (l.loops n)) _ _
        (continue-at IsAttended (logged r) (λ u. set_loop n tests) (logged-at IsAttended r a')
          λ u. AttendedAt-runs _ _ n tests _ refl (logged-at IsAttended r a'))
        a

  -- The turn is a failure of a loop whose request is dropped, since `handleReconnect` does not wait for
  -- one yet.
  abbrev pub Loses : Turn → Link W → Type 0
  Loses (read_fails n) l = (l.phase ≡ returning) × ((client_of l).conn ≡ some n)
  Loses user_closes l = ⊥
  Loses (user_reconnects target) l = ⊥
  Loses (user_writes buf) l = ⊥
  Loses counts_failure l = ⊥
  Loses (divided p) l = ⊥
  Loses (runs_job k) l = ⊥
  Loses (tests_closed n) l = ⊥
  Loses (reads_frame n now frame) l = ⊥
  Loses (pings n) l = ⊥
  Loses (stops_pinging n) l = ⊥
  Loses (greets n timed_out) l = ⊥
  Loses takes_request l = ⊥
  Loses (finds_node node) l = ⊥
  Loses (adopts now answer) l = ⊥
  Loses starts_loops l = ⊥
  Loses returns l = ⊥

  pub take_turn-IsAttended :
      (x : Turn) (l : Link W)
      → IsValid (client_of l)
      → ¬ Loses x l
      → IsAttended l
      → IsAttended (take_turn nacl codec secret json wire net socket address x l).1
  unfolding take_turn test_closed stop_pinging take_request adopt start_loops
  take_turn-IsAttended user_closes l v kept a =
      logged-at IsAttended (on_reader (on_client (close_client net)) l)
        (on_client-IsAttended (close_client net) l (close_client-Follows (client_of l) net) a)
  take_turn-IsAttended (user_reconnects node) l v kept a =
      on_client-IsAttended (reconnect node) l (reconnect-Follows (client_of l) node) a
  take_turn-IsAttended (divided p) l v kept a =
      on_client-IsAttended (take_part net p) l (take_part-Follows (client_of l) net p) a
  take_turn-IsAttended (user_writes buf) l v kept a =
      logged-at IsAttended (on_reader (on_client (write_message net buf)) l) (
        on_client-IsAttended (write_message net buf) l (write_message-Follows (client_of l) net buf)
          a)
  take_turn-IsAttended counts_failure l v kept a =
      let c = client_of l in
      AttendedAt-Follows l.phase c (record_send_failure c) l.loops
        (record_send_failure-Follows c c (Follows-refl c)) a
  take_turn-IsAttended (runs_job k) l v kept a =
      run_some-IsAttended (run_job nacl codec secret wire net) k (job_at k l.reader.jobs) l
        (λ c j. run_job-Follows c nacl codec secret wire net j) a
  take_turn-IsAttended (tests_closed n) l v kept a =
      if-result IsAttended (is_testing (l.loops n)) _ _
        (AttendedAt-left l.phase (client_of l) n l.loops a) a
  take_turn-IsAttended (reads_frame n now frame) l v kept a = read_frame-IsAttended n now frame l a
  take_turn-IsAttended (read_fails n) l v kept a = fail_read-IsAttended n l v kept a
  take_turn-IsAttended (pings n) l v kept a = ping-IsAttended socket net address n l a
  take_turn-IsAttended (stops_pinging n) l v kept a =
      if-result IsAttended (l.pingers n && not (is_running (l.loops n))) _ _ a a
  take_turn-IsAttended (greets n timed_out) l v kept a =
      greet-IsAttended socket net address n timed_out l a
  take_turn-IsAttended takes_request l v kept a =
      take_from-IsAttended l.phase (client_of l).handler l v a
  take_turn-IsAttended (finds_node node) l v kept a =
      keep_node-AttendedAt l.phase node (client_of l) l.loops a
  take_turn-IsAttended (adopts now answer) l v kept a =
      adopt_in-IsAttended socket net address l.phase now answer l a
  take_turn-IsAttended starts_loops l v kept a =
      start_from-IsAttended socket net address l.phase l a a
  take_turn-IsAttended returns l v kept a = return_from-IsAttended l.phase l a a
