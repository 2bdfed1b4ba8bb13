-- ===== src/Client/Link/Turns/Leftover.antt =====
-- client.go: what `handleReconnect` leaves behind when the client is closed while it connects, and when a
-- loop fails before it waits again.
use nkn_sdk_go.Base.{
  ℕ, ==_refl, ◌≡◌, refl, sym, ap, ◌∙◌, subst, true, false, List, [], ◌∷◌, Option, none, some,
  if◌then◌else◌,
}
use nkn_sdk_go.Base.Int.{ℤ}
use nkn_sdk_go.Base.Bytes.{Bytes}
use nkn_sdk_go.Errors.{Outcome, ok}
use nkn_sdk_go.Action.{◌>>◌, >>-step}
use nkn_sdk_go.Message.{Nacl, Codec}
use nkn_sdk_go.Client.State.{
  Client, Node, Net, waiting, busy, connecting, close_client, adopt_connection,
}
use nkn_sdk_go.Client.State.Invariant.{
  IsValid, IsCalm, close_client-IsValid, reconnect_dropped, close_client_done,
}
use nkn_sdk_go.Client.State.Follows.{Follows-refl, close_client-Follows}
use nkn_sdk_go.Client.Handling.{Json, Wire, on_client}
use nkn_sdk_go.Client.Link.{
  Link, Socket, absent, tests, reads, resting, dialing, starting, returning, Turn, adopts,
  starts_loops, returns, tests_closed, read_fails, user_closes, set_at, ask_again, set_loop,
  is_reading, on_reader, client_of, with_client, test_closed, fail_read,
}
use nkn_sdk_go.Client.Link.Turns.{adopt, adopt_in, take_turn, take_turns}
use nkn_sdk_go.Client.Link.Turns.Restless.{
  logged_calm, turn, adopted, begun, starts, rests, turn_then, all_turns,
}

-- The client is closed, its connection has no goroutine left, and closing it again changes nothing.
pub record IsLeft {W : Type 0} (net : Net W) (n : ℕ) (l : Link W) : Type 0 where
  pub closed : (client_of l).is_closed ≡ true
  pub conn_eq : (client_of l).conn ≡ some n
  pub loop_eq : l.loops n ≡ absent
  pub close_nothing : close_client net (client_of l) ≡ (ok tt, client_of l)

-- An open client is in `connect`, with a node and a connection before.
pub record IsDialing {W : Type 0} (node : Node) (p : ℕ) (l : Link W) : Type 0 where
  pub phase_eq : l.phase ≡ dialing (some node)
  pub valid : IsValid (client_of l)
  pub conn_eq : (client_of l).conn ≡ some p

-- The client is closed, the dial succeeds, and the new loop begins.
abbrev pub closes_late : ℤ → Outcome Bytes → ℕ → List Turn
closes_late now answer d =
    user_closes ∷ adopts now answer ∷ starts_loops ∷ returns ∷ tests_closed d ∷ []

module _ {W : Type 0} (nacl : Nacl W) (codec : Codec) (secret : Bytes) (json : Json W) (wire : Wire)
    (net : Net W) (socket : Socket W) (address : Bytes) where
  adopts_some :
      (node : Node) (now : ℤ) (answer : Outcome Bytes) (l : Link W)
      → l.phase ≡ dialing (some node)
      → turn nacl codec secret json wire net socket address (adopts now answer) l
        ≡ (ok tt, adopted nacl codec secret json wire net socket address node now answer l)
  unfolding take_turn adopt adopt_connection
  adopts_some node now answer l h = ap (λ q. adopt_in socket net address q now answer l) h

  leaves :
      (d : ℕ) (l : Link W)
      → l.loops d ≡ tests
      → (client_of l).is_closed ≡ true
      → turn nacl codec secret json wire net socket address (tests_closed d) l
        ≡ (ok tt, record l { loops = set_at d absent l.loops })
  unfolding take_turn test_closed
  leaves d l h o = simp (h, o) refl

  closes :
      (l : Link W)
      → IsCalm net
      → IsValid (client_of l)
      → turn nacl codec secret json wire net socket address user_closes l
        ≡ (ok tt, with_client (λ c. (close_client net c).1) l)
  unfolding take_turn
  closes l calm v =
      logged_calm (on_reader (on_client (close_client net)) l)
        (close_client-IsValid net (client_of l) calm v).0

  fails_busy :
      (n : ℕ) (h : Option Node) (l : Link W)
      → l.loops n ≡ reads
      → (client_of l).is_closed ≡ false
      → (client_of l).reconnect_closed ≡ false
      → (client_of l).handler ≡ busy h
      → turn nacl codec secret json wire net socket address (read_fails n) l ≡ (
        ok tt,
        record (with_client (λ c. record c { state = connecting }) l) {
          loops = set_at n absent l.loops;
        },
      )
  unfolding take_turn fail_read
  fails_busy n h l run o r w =
      let c = client_of l in
      let l' : Link W = with_client (λ c. record c { state = connecting }) l in
      ap (λ s. if is_reading s then (do ask_again; set_loop n absent) l else (ok tt, l)) run
      ∙ >>-step ask_again (set_loop n absent) l l' (
          ap (λ (z : Outcome (Unit {0}) × Client W). (z.0, with_client (λ e. z.1) l))
            (reconnect_dropped none h c o r w))

  -- A connection that was dialed when the client had just been closed stays: the client is left with it, no
  -- goroutine reads it, and no `Close` reaches it.
  pub closes_late-IsLeft :
      (node : Node) (p : ℕ) (now : ℤ) (answer : Outcome Bytes) (l : Link W)
      → IsCalm net
      → IsDialing node p l
      → IsLeft net l.dialed
          (all_turns nacl codec secret json wire net socket address
            (closes_late now answer l.dialed)
            l).1
  unfolding adopt_connection take_turns
  closes_late-IsLeft node p now answer l calm d =
      let n = l.dialed in
      let c = client_of l in
      let (fine, v', closed) = close_client-IsValid net c calm d.valid in
      let same = (close_client-Follows c net c (Follows-refl c)).same_conn in
      let l1 : Link W = with_client (λ c. (close_client net c).1) l in
      let l2 : Link W = adopted nacl codec secret json wire net socket address node now answer l1 in
      let l3 : Link W = begun nacl codec secret json wire net socket address p n l2 in
      let l4 : Link W = record (with_client (λ c. record c { handler = waiting }) l3) {
        phase = resting;
      } in
      let l5 : Link W = record l4 { loops = set_at n absent l4.loops } in
      let and_on = turn_then nacl codec secret json wire net socket address in
      let e =
        and_on user_closes (adopts now answer ∷ starts_loops ∷ returns ∷ tests_closed n ∷ []) l l1
          (closes l calm d.valid)
        ∙ and_on (adopts now answer) (starts_loops ∷ returns ∷ tests_closed n ∷ []) l1 l2
            (adopts_some node now answer l1 d.phase_eq)
        ∙ and_on starts_loops (returns ∷ tests_closed n ∷ []) l2 l3 (
            starts nacl codec secret json wire net socket address p n l2 calm
              (ap (λ o. starting o n) (same ∙ d.conn_eq)))
        ∙ and_on returns (tests_closed n ∷ []) l3 l4
            (rests nacl codec secret json wire net socket address l3 refl)
        ∙ and_on (tests_closed n) [] l4 l5 (leaves n l4 (simp (==_refl n) refl) closed) in
      subst (λ (r : Outcome (Unit {0}) × Link W). IsLeft net n r.1) (sym e)
        (record {
          closed = closed;
          conn_eq = refl;
          loop_eq = simp (==_refl n) refl;
          close_nothing = close_client_done net (client_of l5) closed;
        })

  -- The loop of the new connection fails before `handleReconnect` waits again: it then waits, with no
  -- request and with no loop for the connection of the open client.
  pub fails_early_lost :
      (n : ℕ) (l : Link W) (h : Option Node)
      → l.phase ≡ returning
      → (client_of l).handler ≡ busy h
      → (client_of l).is_closed ≡ false
      → (client_of l).reconnect_closed ≡ false
      → (client_of l).conn ≡ some n
      → l.loops n ≡ reads
      → let r =
          all_turns nacl codec secret json wire net socket address
            (read_fails n ∷ returns ∷ [])
            l in
        (r.0 ≡ ok tt)
        × (r.1.phase ≡ resting)
        × ((client_of r.1).handler ≡ waiting)
        × ((client_of r.1).is_closed ≡ false)
        × (r.1.loops n ≡ absent)
  unfolding take_turns
  fails_early_lost n l h phase handler open_client channel conn loop =
      let l1 : Link W = record (with_client (λ c. record c { state = connecting }) l) {
        loops = set_at n absent l.loops;
      } in
      let l2 : Link W = record (with_client (λ c. record c { handler = waiting }) l1) {
        phase = resting;
      } in
      let e =
        turn_then nacl codec secret json wire net socket address (read_fails n) (returns ∷ []) l l1
          (fails_busy n h l loop open_client channel handler)
        ∙ turn_then nacl codec secret json wire net socket address returns [] l1 l2
            (rests nacl codec secret json wire net socket address l1 phase) in
      subst
        (λ (r : Outcome (Unit {0}) × Link W).
          (r.0 ≡ ok tt)
          × (r.1.phase ≡ resting)
          × ((client_of r.1).handler ≡ waiting)
          × ((client_of r.1).is_closed ≡ false)
          × (r.1.loops n ≡ absent))
        (sym e) (refl, refl, refl, open_client, simp (==_refl n) refl)
