-- ===== src/Client/Link/Turns/Steady.antt =====
-- client.go: a running client under the turns of `handleReconnect` and of the goroutines that write.
use nkn_sdk_go.Base.{
  ℕ, ==_refl, ◌≡◌, refl, sym, ap, ◌∙◌, Bool, true, false, Option, none, some, if◌then◌else◌,
}
use nkn_sdk_go.Base.Int.{ℤ}
use nkn_sdk_go.Base.Bytes.{Bytes}
use nkn_sdk_go.Errors.{Outcome, ok, err, panic}
use nkn_sdk_go.Action.{Action, pure}
use nkn_sdk_go.Action.Keeps.{Keeps, continue-at, if-result}
use nkn_sdk_go.Channel.{Emitter, Received, value, nil_value, blocked, next}
use nkn_sdk_go.Client.State.{
  Client, Node, Net, Handler, waiting, busy, outside, reconnect, adopt_connection,
}
use nkn_sdk_go.Client.State.Invariant.{IsValid, reconnect-asks}
use nkn_sdk_go.Client.State.Follows.{Follows, Follows-refl, reconnect-Follows, outside-Follows}
use nkn_sdk_go.Client.Handling.{Job, on_client}
use nkn_sdk_go.Client.Link.{
  Link, Socket, LoopState, absent, tests, Phase, resting, dialing, starting, returning, ended,
  is_reading, set_at, without_job, logged, on_reader, client_of, set_loop, set_phase, ask_again,
  or_reconnect, run_some, fail_read, set_pinger, take_from, keep_node, return_from,
}
use nkn_sdk_go.Client.Link.Turns.{
  ping, request, with_proof, greet, adopt_in, close_previous, start_from,
}
use nkn_sdk_go.Client.Link.Attended.{
  AttendedAt, IsAttended, has_loop, AttendedAt-Follows, AttendedAt-failed,
}

pub logged-at {ℓ μ} :
    {S : Type ℓ} (P : S → Type μ) (r : Outcome (Unit {0}) × S) → P r.1 → P (logged r).1
logged-at P (ok u, s) h = h
logged-at P (err e, s) h = h
logged-at P (panic, s) h = h

module _ {W : Type 0} where
  -- A call on the client of a link.
  pub on_client-IsAttended :
      {A : Type 0} (m : Action (Client W) A) (l : Link W)
      → Keeps (Follows (client_of l)) m
      → IsAttended l
      → IsAttended (on_reader (on_client m) l).1
  on_client-IsAttended m l k a =
      AttendedAt-Follows l.phase (client_of l) (m (client_of l)).1 l.loops
        (k (client_of l) (Follows-refl (client_of l))) a

  pub run_some-IsAttended :
      (run : Job → Action (Client W) (Unit {0})) (k : ℕ) (o : Option Job) (l : Link W)
      → ((c : Client W) (j : Job) → Keeps (Follows c) (run j))
      → IsAttended l
      → IsAttended (run_some run k o l).1
  run_some-IsAttended run k none l f a = a
  run_some-IsAttended run k (some j) l f a =
      on_client-IsAttended (run j)
        (record l { reader = record l.reader { jobs = without_job k l.reader.jobs } })
        (f (client_of l) j) a

  or_reconnect-IsAttended :
      (r : Outcome (Unit {0}) × Link W) (left : Action (Link W) (Unit {0}))
      → Keeps IsAttended left
      → IsAttended r.1
      → IsAttended (or_reconnect r left).1
  or_reconnect-IsAttended (ok u, l) left k a = a
  or_reconnect-IsAttended (err e, l) left k a =
      let a' = on_client-IsAttended (reconnect none) l (reconnect-Follows (client_of l) none) a in
      continue-at IsAttended (ask_again l) (λ u. left) a' λ u. k (ask_again l).1 a'
  or_reconnect-IsAttended (panic, l) left k a = a

  -- The loop fails, and its request is not lost.
  pub fail_read-IsAttended :
      (n : ℕ) (l : Link W)
      → IsValid (client_of l)
      → ¬ ((l.phase ≡ returning) × ((client_of l).conn ≡ some n))
      → IsAttended l
      → IsAttended (fail_read n l).1
  unfolding fail_read
  fail_read-IsAttended n l v kept a =
      let c = client_of l in
      if-result IsAttended (is_reading (l.loops n)) _ _
        (continue-at IsAttended (ask_again l) (λ u. set_loop n absent)
          (on_client-IsAttended (reconnect none) l (reconnect-Follows c none) a)
          λ u.
            AttendedAt-failed l.phase c (reconnect none c).1 n l.loops
              (reconnect-Follows c none c (Follows-refl c)) (reconnect-asks none c v) kept a)
        a

  taken :
      (b : Bool) (node : Option Node) (c : Client W) (loops : ℕ → LoopState)
      → c.is_closed ≡ b
      → AttendedAt (if b then ended else dialing node) c loops
  taken true target c loops h = h
  taken false target c loops h = tt

  ended_if :
      (b : Bool) (l : Link W)
      → (b ≡ true → (client_of l).is_closed ≡ true)
      → IsAttended l
      → IsAttended (if b then set_phase ended l else (ok tt, l)).1
  ended_if true l h a = h refl
  ended_if false l h a = a

  pub take_from-IsAttended :
      (p : Phase) (h : Handler) (l : Link W)
      → IsValid (client_of l)
      → IsAttended l
      → IsAttended (take_from p h l).1
  take_from-IsAttended resting (busy node) l v a =
      taken (client_of l).is_closed node (client_of l) l.loops refl
  take_from-IsAttended resting waiting l v a =
      ended_if (client_of l).reconnect_closed l (λ e. sym v.reconnect_closed_eq ∙ e) a
  take_from-IsAttended (dialing k) h l v a = a
  take_from-IsAttended (starting p n) h l v a = a
  take_from-IsAttended returning h l v a = a
  take_from-IsAttended ended h l v a = a

  pub keep_node-AttendedAt :
      (p : Phase) (node : Node) (c : Client W) (loops : ℕ → LoopState)
      → AttendedAt p c loops
      → AttendedAt (keep_node p node) c loops
  keep_node-AttendedAt resting node c loops a = a
  keep_node-AttendedAt (dialing none) node c loops a = tt
  keep_node-AttendedAt (dialing (some k)) node c loops a = tt
  keep_node-AttendedAt (starting p n) node c loops a = a
  keep_node-AttendedAt returning node c loops a = a
  keep_node-AttendedAt ended node c loops a = a

  pub return_from-IsAttended :
      (p : Phase) (l : Link W)
      → AttendedAt p (client_of l) l.loops
      → IsAttended l
      → IsAttended (return_from p l).1
  return_from-IsAttended returning l b a = λ o h. b o
  return_from-IsAttended resting l b a = a
  return_from-IsAttended (dialing k) l b a = a
  return_from-IsAttended (starting p n) l b a = a
  return_from-IsAttended ended l b a = a

module _ {W : Type 0} (socket : Socket W) (net : Net W) (address : Bytes) where
  pub ping-IsAttended : (n : ℕ) → Keeps IsAttended (ping socket net address n)
  unfolding ping
  ping-IsAttended n l a =
      if-result IsAttended (l.pingers n) _ _
        (or_reconnect-IsAttended (on_reader (on_client (outside (socket.write_ping n))) l)
          (set_pinger n false) (λ s b. b)
          (on_client-IsAttended (outside (socket.write_ping n)) l
            (outside-Follows (client_of l) (socket.write_ping n)) a))
        a

  request-IsAttended :
      (n : ℕ) (proof : Option (Bytes × Bytes))
      → Keeps IsAttended (request socket net address n proof)
  request-IsAttended n proof l a =
      let m = socket.write_request n address proof in
      or_reconnect-IsAttended (on_reader (on_client (outside m)) l) (pure tt) (λ s b. b)
        (on_client-IsAttended (outside m) l (outside-Follows (client_of l) m) a)

  with_proof-IsAttended :
      (n : ℕ) (r : Received (Bytes × Bytes) × Emitter (Bytes × Bytes))
      → Keeps IsAttended (with_proof socket net address n r)
  with_proof-IsAttended n (value x, e) l a = request-IsAttended n (some x) _ (
      AttendedAt-Follows l.phase (client_of l) (record (client_of l) { challenge_signature = e })
        l.loops (record { same_conn = refl; idle_before = λ h. h; open_before = λ h. h }) a)
  with_proof-IsAttended n (nil_value, e) l a = request-IsAttended n none l a
  with_proof-IsAttended n (blocked, e) l a = a

  pub greet-IsAttended :
      (n : ℕ) (timed_out : Bool) → Keeps IsAttended (greet socket net address n timed_out)
  unfolding greet
  greet-IsAttended n timed_out l a =
      if-result IsAttended (l.greeters n) _ _
        (if-result IsAttended timed_out _ _ (request-IsAttended n none l a)
          (with_proof-IsAttended n (next (client_of l).challenge_signature) l a))
        a

  pub adopt_in-IsAttended :
      (p : Phase) (now : ℤ) (answer : Outcome Bytes)
      → Keeps IsAttended (adopt_in socket net address p now answer)
  unfolding adopt_connection
  adopt_in-IsAttended (dialing (some node)) now answer l a = refl
  adopt_in-IsAttended (dialing none) now answer l a = a
  adopt_in-IsAttended resting now answer l a = a
  adopt_in-IsAttended (starting p n) now answer l a = a
  adopt_in-IsAttended returning now answer l a = a
  adopt_in-IsAttended ended now answer l a = a

  close_previous_conn :
      (prev : Option ℕ) (l : Link W)
      → (client_of (close_previous socket net address prev l).1).conn ≡ (client_of l).conn
  close_previous_conn none l = refl
  close_previous_conn (some p) l =
      logged-at (λ s. (client_of s).conn ≡ (client_of l).conn)
        (on_reader (on_client (outside (net.close_conn p))) l) refl

  close_previous-IsAttended :
      (prev : Option ℕ) → Keeps IsAttended (close_previous socket net address prev)
  close_previous-IsAttended none l a = a
  close_previous-IsAttended (some p) l a =
      logged-at IsAttended (on_reader (on_client (outside (net.close_conn p))) l) (
        on_client-IsAttended (outside (net.close_conn p)) l
          (outside-Follows (client_of l) (net.close_conn p)) a)

  has_loop-begun :
      (o : Option ℕ) (n : ℕ) (loops : ℕ → LoopState)
      → o ≡ some n
      → has_loop o (set_at n tests loops) ≡ true
  has_loop-begun o n loops h = ap (λ x. has_loop x (set_at n tests loops)) h ∙ simp (==_refl n) refl

  pub start_from-IsAttended :
      (p : Phase) (l : Link W)
      → AttendedAt p (client_of l) l.loops
      → IsAttended l
      → IsAttended (start_from socket net address p l).1
  start_from-IsAttended (starting prev n) l b a =
      continue-at IsAttended (close_previous socket net address prev l) _
        (close_previous-IsAttended prev l a)
        λ u o. has_loop-begun _ n _ (close_previous_conn prev l ∙ b)
  start_from-IsAttended resting l b a = a
  start_from-IsAttended (dialing k) l b a = a
  start_from-IsAttended returning l b a = a
  start_from-IsAttended ended l b a = a
