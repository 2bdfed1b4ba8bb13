-- ===== src/Client/Link/Turns/Restless.antt =====
-- client.go: a request to reconnect while the loop of the connection still runs: `connectToNode`
-- closes the connection before.
use nkn_sdk_go.Base.{
  ℕ, zero, suc, ◌+◌, ◌<◌, ==_refl, ◌≡◌, ◌≢◌, refl, sym, ap, ◌∙◌, subst, false, List, [], ◌∷◌, ◌++◌,
  none, some, if◌then◌else◌, arith,
}
use nkn_sdk_go.Base.Int.{ℤ}
use nkn_sdk_go.Base.Bytes.{Bytes}
use nkn_sdk_go.Errors.{Outcome, ok, err, panic}
use nkn_sdk_go.Action.{◌>>◌, >>-step}
use nkn_sdk_go.Message.{Nacl, Codec}
use nkn_sdk_go.Client.State.{
  Client, Node, Net, waiting, busy, connecting, outside, adopt_connection,
}
use nkn_sdk_go.Client.State.Invariant.{IsCalm, reconnect_taken}
use nkn_sdk_go.Client.Handling.{Json, Wire, on_client}
use nkn_sdk_go.Client.Link.{
  Link, Socket, LoopState, absent, tests, reads, resting, dialing, starting, returning, Turn,
  takes_request, finds_node, adopts, starts_loops, returns, tests_closed, read_fails, set_at,
  logged, ask_again, set_loop, is_reading, on_reader, client_of, with_client, begin_loops,
  rpc_servers, test_closed, fail_read, take_request,
}
use nkn_sdk_go.Client.Link.Turns.{
  adopt, close_previous, start_from, start_loops, take_turn, take_turns,
}

pub logged_calm {ℓ} :
    {S : Type ℓ} (r : Outcome (Unit {0}) × S) → r.0 ≢ panic → logged r ≡ (ok tt, r.1)
logged_calm (ok u, s) calm = refl
logged_calm (err e, s) calm = refl
logged_calm (panic, s) calm = absurd (calm refl)

-- The turns between one request to reconnect and the next: the node is found, connection `d` is adopted
-- and `p` closed, the new loop begins, and the loop of `p` fails.
abbrev pub cycle : Node → ℤ → Outcome Bytes → ℕ → ℕ → List Turn
cycle node now answer p d =
    takes_request
    ∷ finds_node node
    ∷ adopts now answer
    ∷ starts_loops
    ∷ returns
    ∷ tests_closed d
    ∷ read_fails p
    ∷ []

-- The cycles one after the other.
abbrev pub cycles : ℕ → Node → ℤ → Outcome Bytes → ℕ → ℕ → List Turn
cycles zero node now answer p d = []
cycles (suc k) node now answer p d = cycle node now answer p d ++ cycles k node now answer d (suc d)

-- An open client has a request, and the loop of its connection `p` runs.
pub record IsAsked {W : Type 0} (p : ℕ) (l : Link W) : Type 0 where
  pub phase_eq : l.phase ≡ resting
  pub handler_eq : (client_of l).handler ≡ busy none
  pub open_client : (client_of l).is_closed ≡ false
  pub open_channel : (client_of l).reconnect_closed ≡ false
  pub conn_eq : (client_of l).conn ≡ some p
  pub loop_eq : l.loops p ≡ reads
  pub older : p < l.dialed

module _ {W : Type 0} (nacl : Nacl W) (codec : Codec) (secret : Bytes) (json : Json W) (wire : Wire)
    (net : Net W) (socket : Socket W) (address : Bytes) where
  abbrev pub turn : Turn → Link W → Outcome (Unit {0}) × Link W
  turn = take_turn nacl codec secret json wire net socket address

  takes :
      (p : ℕ) (l : Link W)
      → IsAsked p l
      → turn takes_request l ≡ (ok tt, record l { phase = dialing none })
  unfolding take_turn take_request
  takes p l a = simp (a.phase_eq, a.handler_eq, a.open_client) refl

  abbrev pub adopted : Node → ℤ → Outcome Bytes → Link W → Link W
  adopted node now answer l =
      record (with_client (adopt_connection l.dialed node now (rpc_servers socket node answer)) l) {
        phase = starting (client_of l).conn l.dialed;
        dialed = suc l.dialed;
      }

  pub finds :
      (node : Node) (l : Link W)
      → turn (finds_node node) (record l { phase = dialing none })
        ≡ (ok tt, record l { phase = dialing (some node) })
  unfolding take_turn
  finds node l = refl

  pub dials :
      (node : Node) (now : ℤ) (answer : Outcome Bytes) (l : Link W)
      → turn (adopts now answer) (record l { phase = dialing (some node) })
        ≡ (ok tt, adopted node now answer l)
  unfolding take_turn adopt adopt_connection
  dials node now answer l = refl

  abbrev pub closed_before : ℕ → Link W → Link W
  closed_before p l = (on_reader (on_client (outside (net.close_conn p))) l).1

  abbrev pub begun : ℕ → ℕ → Link W → Link W
  begun p d l = record (begin_loops d (closed_before p l)) { phase = returning }

  pub starts :
      (p d : ℕ) (l : Link W)
      → IsCalm net
      → l.phase ≡ starting (some p) d
      → turn starts_loops l ≡ (ok tt, begun p d l)
  unfolding take_turn start_loops
  starts p d l calm h =
      ap (λ q. start_from socket net address q l) h
      ∙ >>-step (close_previous socket net address (some p)) _ l (closed_before p l)
          (logged_calm (on_reader (on_client (outside (net.close_conn p))) l) (calm.calm_close p _))

  pub rests :
      (l : Link W)
      → l.phase ≡ returning
      → turn returns l
        ≡ (ok tt, record (with_client (λ c. record c { handler = waiting }) l) { phase = resting })
  unfolding take_turn
  rests l h = simp h refl

  begins :
      (d : ℕ) (l : Link W)
      → l.loops d ≡ tests
      → (client_of l).is_closed ≡ false
      → turn (tests_closed d) l ≡ (ok tt, record l { loops = set_at d reads l.loops })
  unfolding take_turn test_closed
  begins d l h o = simp (h, o) refl

  fails :
      (p : ℕ) (l : Link W)
      → l.loops p ≡ reads
      → (client_of l).is_closed ≡ false
      → (client_of l).reconnect_closed ≡ false
      → (client_of l).handler ≡ waiting
      → turn (read_fails p) l ≡ (
        ok tt,
        record (with_client (λ c. record c { state = connecting; handler = busy none }) l) {
          loops = set_at p absent l.loops;
        },
      )
  unfolding take_turn fail_read
  fails p l h o r w =
      let c = client_of l in
      let l' : Link W = with_client (λ c. record c { state = connecting; handler = busy none }) l in
      ap (λ s. if is_reading s then (do ask_again; set_loop p absent) l else (ok tt, l)) h
      ∙ >>-step ask_again (set_loop p absent) l l' (
          ap (λ (z : Outcome (Unit {0}) × Client W). (z.0, with_client (λ e. z.1) l))
            (reconnect_taken none c o r w))

  -- The link after a cycle.
  abbrev after_cycle : Node → ℤ → Outcome Bytes → ℕ → Link W → Link W
  after_cycle node now answer p l =
      let d = l.dialed in
      let l1 = begun p d (adopted node now answer l) in
      let l2 = record (with_client (λ c. record c { handler = waiting }) l1) { phase = resting } in
      let l3 = record l2 { loops = set_at d reads l2.loops } in
      record (with_client (λ c. record c { state = connecting; handler = busy none }) l3) {
        loops = set_at p absent l3.loops;
      }

  abbrev pub all_turns : List Turn → Link W → Outcome (Unit {0}) × Link W
  all_turns = take_turns nacl codec secret json wire net socket address

  pub turn_then :
      (x : Turn) (xs : List Turn) (l l' : Link W)
      → turn x l ≡ (ok tt, l')
      → all_turns (x ∷ xs) l ≡ all_turns xs l'
  unfolding take_turns
  turn_then x xs l l' h = >>-step (turn x) (all_turns xs) l l' h

  older_loop :
      (p d : ℕ) (s t : LoopState) (loops : ℕ → LoopState)
      → p < d
      → set_at d s (set_at d t loops) p ≡ loops p
  older_loop p d s t loops h = ground (arith, h)

  newer_loop :
      (p d : ℕ) (loops : ℕ → LoopState) → p < d → set_at p absent (set_at d reads loops) d ≡ reads
  newer_loop p d loops h = ground (arith, h)

  cycle_done :
      (node : Node) (now : ℤ) (answer : Outcome Bytes) (p : ℕ) (rest : List Turn) (l : Link W)
      → IsCalm net
      → IsAsked p l
      → all_turns (cycle node now answer p l.dialed ++ rest) l
        ≡ all_turns rest (after_cycle node now answer p l)
  unfolding adopt_connection
  cycle_done node now answer p rest l calm a =
      let d = l.dialed in
      let l0 : Link W = adopted node now answer l in
      let l1 : Link W = begun p d l0 in
      let l2 : Link W = record (with_client (λ c. record c { handler = waiting }) l1) {
        phase = resting;
      } in
      let l3 : Link W = record l2 { loops = set_at d reads l2.loops } in
      turn_then takes_request _ l (record l { phase = dialing none }) (takes p l a)
      ∙ turn_then (finds_node node) _ (record l { phase = dialing none })
          (record l { phase = dialing (some node) }) (finds node l)
      ∙ turn_then (adopts now answer) _ (record l { phase = dialing (some node) }) l0
          (dials node now answer l)
      ∙ turn_then starts_loops _ l0 l1 (starts p d l0 calm (ap (λ o. starting o d) a.conn_eq))
      ∙ turn_then returns _ l1 l2 (rests l1 refl)
      ∙ turn_then (tests_closed d) _ l2 l3 (begins d l2 (simp (==_refl d) refl) a.open_client)
      ∙ turn_then (read_fails p) rest l3 (after_cycle node now answer p l) (
          fails p l3 (older_loop p d reads tests l.loops a.older ∙ a.loop_eq) a.open_client
            a.open_channel refl)

  after_cycle-IsAsked :
      (node : Node) (now : ℤ) (answer : Outcome Bytes) (p : ℕ) (l : Link W)
      → IsAsked p l
      → IsAsked l.dialed (after_cycle node now answer p l)
  unfolding adopt_connection
  after_cycle-IsAsked node now answer p l a = record {
    phase_eq = refl;
    handler_eq = refl;
    open_client = a.open_client;
    open_channel = a.open_channel;
    conn_eq = refl;
    loop_eq = newer_loop p l.dialed (set_at l.dialed tests l.loops) a.older;
    older = omega arith;
  }

  -- From one request on, while the loop of the connection runs, the client can reconnect any number of times,
  -- on a network on which nothing panics, with no other request, and with no failure of a loop but of those
  -- whose connection `connectToNode` has closed; it is then open, and has the next request.
  pub cycles-IsAsked :
      (k p : ℕ) (node : Node) (now : ℤ) (answer : Outcome Bytes) (l : Link W)
      → IsCalm net
      → IsAsked p l
      → ((all_turns (cycles k node now answer p l.dialed) l).0 ≡ ok tt)
        × ((all_turns (cycles k node now answer p l.dialed) l).1.dialed ≡ l.dialed + k)
        × ((q : ℕ) × IsAsked q (all_turns (cycles k node now answer p l.dialed) l).1)
  unfolding take_turns
  cycles-IsAsked zero p node now answer l calm a = (refl, omega arith, (p, a))
  cycles-IsAsked (suc k) p node now answer l calm a =
      let l' : Link W = after_cycle node now answer p l in
      let (fine, count, (q, asked)) =
        cycles-IsAsked k l.dialed node now answer l' calm
          (after_cycle-IsAsked node now answer p l a) in
      let e =
        cycle_done node now answer p (cycles k node now answer l.dialed (suc l.dialed)) l calm a in
      subst
        (λ (r : Outcome (Unit {0}) × Link W).
          (r.0 ≡ ok tt) × (r.1.dialed ≡ l.dialed + suc k) × ((q : ℕ) × IsAsked q r.1))
        (sym e) (fine, omega (arith, count), (q, asked))
