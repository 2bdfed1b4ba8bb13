-- ===== src/MultiClient/Sessions.antt =====
-- multiclient.go: the sessions of a multiclient, `handleSessionMsg`, `Listen`, `DialWithConfig` and
-- `AcceptSession`. A session is of another package, ncp: here it is a number, by which the world `W` keeps
-- its state.
pub mod Accept
pub mod Numbers
pub mod Sender
mod Tests
use nkn_sdk_go.Base.{
  ℕ, Bool, true, false, List, [], ◌∷◌, ◌++◌, map, Option, none, some, length, ltb, if◌then◌else◌,
}
use nkn_sdk_go.Base.Int.{ℤ, pos, ◌-ℤ◌}
use nkn_sdk_go.Base.Bytes.{Bytes, text, Dict, lookup, insert}
use nkn_sdk_go.Errors.{Error, Outcome, ok, err, panic, addr_not_allowed, closed}
use nkn_sdk_go.Action.{Action, pure, raise, modify, ◌>>=◌, ◌>>◌}
use nkn_sdk_go.Identifier.{add_identifier, remove_identifier}

-- `acceptSessionBufSize`
abbrev pub accept_session_buf_size : ℕ
accept_session_buf_size = 128

-- The packages ncp and regexp. `new_session` is given the remote address, the session id, and the ids of
-- the clients; `receive_with` the session, both client ids and the data.
pub record Ncp (W : Type 0) : Type 1 where
  pub Pattern : Type 0
  pub compile : Bytes → Outcome Pattern
  pub matches : Pattern → Bytes → Bool
  pub new_session : Bytes → Bytes → List Bytes → Action W ℕ
  pub receive_with : ℕ → Bytes → Bytes → Bytes → Action W (Unit {0})
  pub dial : ℕ → Action W (Unit {0})
  pub accept : ℕ → Action W (Unit {0})
  pub random_bytes : Action W Bytes

-- `sessionKey`
abbrev pub session_key : Bytes → Bytes → Bytes
session_key remote_addr session_id = remote_addr ++ session_id

-- `addIdentifier("", i-offset)`: the client id under which the goroutine of client `i` hands on the
-- messages of sessions.
pub receiving_id : Bool → ℤ → Bytes
receiving_id original i = add_identifier [] (i -ℤ (if original then pos 1 else pos 0))

-- `addIdentifier("", id)`: the client ids that `newSession` gives a session to send with. (They are
-- sorted, which is left out.)
pub sending_ids : List ℤ → List Bytes
sending_ids = map (λ id. add_identifier [] id)

module _ {W : Type 0} (ncp : Ncp W) where
  open ncp use {Pattern, compile, matches, new_session, receive_with, dial, accept, random_bytes}

  -- `sessions`, `acceptAddrs`, the buffer of `acceptSession`, and the numbers of the clients.
  pub record Sessions : Type 0 where
    pub sessions : Dict ℕ
    pub accept_addrs : List Pattern
    pub accept_session : List ℕ
    pub client_ids : List ℤ
    pub world : W

  abbrev pub in_world {ℓ} : {A : Type ℓ} → Action W A → Action Sessions A
  in_world m s = let (o, w) = m s.world in (o, record s { world = w })

  -- `shouldAcceptAddr`
  pub should_accept : List Pattern → Bytes → Bool
  should_accept [] addr = false
  should_accept (p ∷ ps) addr = if matches p addr then true else should_accept ps addr

  -- `select { case m.acceptSession <- session: default: }`
  abbrev pub offer : ℕ → Sessions → Sessions
  offer n s =
      if ltb (length s.accept_session) accept_session_buf_size
      then record s { accept_session = s.accept_session ++ n ∷ [] }
      else s

  -- A message for a session that is there.
  pub hand_on : Bytes → Bytes → Bytes → ℕ → Action Sessions (Unit {0})
  hand_on local remote content n = in_world (receive_with n local remote content)

  -- A new session, which is entered, gets the message, and is offered to `AcceptSession`.
  pub open_session : Bytes → Bytes → Bytes → Bytes → Bytes → Action Sessions (Unit {0})
  unfolding hand_on sending_ids
  open_session local remote_addr remote_id session_id content = do
    n ← (λ s. in_world (new_session remote_addr session_id (sending_ids s.client_ids)) s)
    modify (λ s. record s { sessions = insert (session_key remote_addr session_id) n s.sessions })
    hand_on local remote_id content n
    modify (offer n)

  -- A message for a session that is not there.
  pub start_session : Bytes → Bytes → Bytes → Bytes → Bytes → Action Sessions (Unit {0})
  unfolding open_session should_accept
  start_session local remote_addr remote_id session_id content s =
      if should_accept s.accept_addrs remote_addr
      then open_session local remote_addr remote_id session_id content s
      else (err addr_not_allowed, s)

  abbrev pub on_session :
      Option ℕ
      → (ℕ → Action Sessions (Unit {0}))
      → Action Sessions (Unit {0})
      → Action Sessions (Unit {0})
  on_session none found missing = missing
  on_session (some n) found missing = found n

  -- `handleSessionMsg`
  pub handle_session_msg : Bytes → Bytes → Bytes → Bytes → Action Sessions (Unit {0})
  unfolding start_session hand_on
  handle_session_msg local src session_id content s =
      let (remote_addr, remote_id) = remove_identifier src in
      on_session (lookup (session_key remote_addr session_id) s.sessions)
        (hand_on local remote_id content)
        (start_session local remote_addr remote_id session_id content) s

  abbrev pub compiled : Outcome Pattern → Outcome (List Pattern) → Outcome (List Pattern)
  compiled (ok p) (ok ps) = ok (p ∷ ps)
  compiled (ok p) (err e) = err e
  compiled (ok p) panic = panic
  compiled (err e) rest = err e
  compiled panic rest = panic

  pub compile_each : List Bytes → Outcome (List Pattern)
  compile_each [] = ok []
  compile_each (addr ∷ addrs) = compiled (compile addr) (compile_each addrs)

  -- `addrs`; nil stands for `DefaultSessionAllowAddr`.
  abbrev pub allowed_addrs : Option (List Bytes) → List Bytes
  allowed_addrs none = text ".*" ∷ []
  allowed_addrs (some addrs) = addrs

  abbrev pub set_addrs : Outcome (List Pattern) → Action Sessions (Unit {0})
  set_addrs (ok ps) s = (ok tt, record s { accept_addrs = ps })
  set_addrs (err e) s = (err e, s)
  set_addrs panic s = (panic, s)

  -- `Listen`
  pub listen : Option (List Bytes) → Action Sessions (Unit {0})
  unfolding compile_each
  listen addrs s = set_addrs (compile_each (allowed_addrs addrs)) s

  -- `DialWithConfig`, less the config and the time limit of `session.Dial`.
  pub dial_session : Bytes → Action Sessions ℕ
  unfolding sending_ids
  dial_session remote_addr = do
    session_id ← in_world random_bytes
    n ← (λ s. in_world (new_session remote_addr session_id (sending_ids s.client_ids)) s)
    modify (λ s. record s { sessions = insert (session_key remote_addr session_id) n s.sessions })
    in_world (dial n)
    pure n

  -- `AcceptSession`, for the sessions that wait: those that cannot be accepted are logged and left out. It
  -- comes back with none where the call goes on waiting.
  pub accept_each : List ℕ → Sessions → Outcome (Option ℕ) × Sessions
  accept_each [] s = (ok none, record s { accept_session = [] })
  accept_each (n ∷ ns) s =
      let (o, w) = accept n s.world in
      let failed = accept_each ns (record s { world = w }) in
      elim o [
        | ok u ↦ (ok (some n), record s { accept_session = ns; world = w })
        | err e ↦ failed
        | panic ↦ (panic, record s { accept_session = ns; world = w })
      ]

  pub accept_session : Sessions → Outcome (Option ℕ) × Sessions
  unfolding accept_each
  accept_session s = accept_each s.accept_session s
