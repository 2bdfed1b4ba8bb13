-- ===== src/Client/State/Lifecycle.antt =====
-- client.go: the steps of calls on a client in any order. A step is what happens under the lock, or a send
-- on a channel with no lock held: `Reconnect` tests and then sends, the reply to setClient changes the
-- state and then calls `OnConnect`, and the answer to a challenge is sent on a channel.
use nkn_sdk_go.Base.{
  ℕ, ◌≡◌, Bool, true, false, Option, arith, List, [], ◌∷◌, inl, inr, Option-cases, Bool-cases, refl,
  if◌then◌else◌,
}
use nkn_sdk_go.Base.Int.{ℤ}
use nkn_sdk_go.Base.Bytes.{Bytes}
use nkn_sdk_go.Errors.{Outcome, ok, panic}
use nkn_sdk_go.Channel.{receive}
use nkn_sdk_go.Client.State.{
  Client, Node, Net, close_client, reconnect_check, reconnect_send, write_locked, adopt_connection,
  handle_set_client, set_client_locked, announce, send_challenge, record_send_failure,
}
use nkn_sdk_go.Client.State.Invariant.{IsValid, IsCalm, close_client-IsValid}

pub data Call : Type 0 where
  closes : Call
  tests_reconnect : Call
  sends_reconnect : Option Node → Call
  writes : Bytes → Call
  sets_client : Bytes → ℤ → Call
  announces : Option Node → Call
  sends_challenge : Bytes → Bytes → Call
  adopts : ℕ → Node → ℤ → List Bytes → Call
  fails_to_send : Call

-- A send with no lock held.
abbrev pub is_unlocked_send : Call → Bool
is_unlocked_send closes = false
is_unlocked_send tests_reconnect = false
is_unlocked_send (sends_reconnect target) = true
is_unlocked_send (writes buf) = false
is_unlocked_send (sets_client hash now) = false
is_unlocked_send (announces target) = true
is_unlocked_send (sends_challenge salt signature) = true
is_unlocked_send (adopts conn target now rpc) = false
is_unlocked_send fails_to_send = false

module _ {W : Type 0} (net : Net W) where
  unfoldable pub step : Call → Client W → Outcome (Unit {0}) × Client W
  step closes c = close_client net c
  step tests_reconnect c = (ok tt, (reconnect_check c).1)
  step (sends_reconnect target) c = reconnect_send target c
  step (writes buf) c = write_locked net buf c
  step (sets_client hash now) c = (ok tt, set_client_locked hash now c)
  step (announces target) c = announce target c
  step (sends_challenge salt signature) c = send_challenge (salt, signature) c
  step (adopts conn target now rpc) c = (ok tt, adopt_connection conn target now rpc c)
  step fails_to_send c = (ok tt, record_send_failure c)

  -- The steps in turn.
  pub run : List Call → Client W → Client W
  run [] c = c
  run (x ∷ xs) c = run xs (step x c).1

  -- A client that is closed stays closed.
  abbrev pub StaysClosed : Client W → Client W → Type 0
  StaysClosed c d = c.is_closed ≡ true → d.is_closed ≡ true

  -- A panic comes only from a send without the lock on a closed client.
  abbrev pub PanicsLate : Call → Client W → Type 0
  PanicsLate x c = (step x c).0 ≡ panic → (is_unlocked_send x ≡ true) × (c.is_closed ≡ true)

  pub step-IsValid :
      (x : Call) (c : Client W)
      → IsCalm net
      → IsValid c
      → PanicsLate x c × IsValid (step x c).1 × StaysClosed c (step x c).1
  unfolding step adopt_connection record_send_failure reconnect_check reconnect_send
      set_client_locked receive
  step-IsValid closes c calm v = grind (arith, close_client-IsValid net c calm v)
  step-IsValid tests_reconnect c calm v = ground arith
  step-IsValid (sends_reconnect target) c calm v = ground arith
  step-IsValid (writes buf) c calm v = elim (Option-cases c.conn) [
    | inl e ↦ absurd (v.has_conn e)
    | inr (n, e) ↦ ground (arith, e, calm.calm_write n buf c.keys.world)
  ]
  step-IsValid (sets_client hash now) c calm v = ground arith
  step-IsValid (announces target) c calm v = ground arith
  step-IsValid (sends_challenge salt signature) c calm v = ground arith
  step-IsValid (adopts conn target now rpc) c calm v = ground arith
  step-IsValid fails_to_send c calm v = ground arith

  -- `handle_set_client` is two of the steps with nothing between them.
  handle_set_client-announce :
      (hash : Bytes) (now : ℤ) (c : Client W)
      → handle_set_client hash now c ≡ (
          if c.is_closed
          then (ok tt, set_client_locked hash now c)
          else announce c.node (set_client_locked hash now c))
  unfolding handle_set_client set_client_locked receive
  handle_set_client-announce hash now c = elim (Bool-cases c.is_closed) [
    | inl e ↦ rw e refl
    | inr e ↦ rw e refl
  ]

  -- Of each step of the run.
  abbrev pub AllPanicLate : List Call → Client W → Type 0
  AllPanicLate [] c = Unit
  AllPanicLate (x ∷ xs) c = PanicsLate x c × AllPanicLate xs (step x c).1

  -- From a well-formed client on a calm network, in any order of the steps, a step panics only if it is a
  -- send without the lock (on the reconnect channel, `OnConnect` or the channel for the challenge) on a
  -- client that is closed by then; and the client stays well formed, and once closed stays closed.
  pub run-IsValid :
      (xs : List Call) (c : Client W)
      → IsCalm net
      → IsValid c
      → AllPanicLate xs c × IsValid (run xs c) × StaysClosed c (run xs c)
  unfolding run
  run-IsValid [] c calm v = (tt, v, λ h. h)
  run-IsValid (x ∷ xs) c calm v =
      let (late, v', final) = step-IsValid x c calm v in
      let (late', v'', final') = run-IsValid xs (step x c).1 calm v' in
      ((late, late'), v'', λ h. final' (final h))
