-- ===== src/Client/Link.antt =====
-- client.go: a running client. `connectToNode` starts three goroutines for each connection, and
-- `handleReconnect` connects again; with the goroutines of Client/Handling and the calls of users they take
-- their steps in any order. A run is a list of turns, each of which is one step, or nothing where its
-- goroutine is not at that step; a run stops at a panic. An attempt to connect that fails, and a wait,
-- change nothing here: Client/Connect has them.
pub mod Turns
pub mod Attended
use nkn_sdk_go.Base.{
  ℕ, zero, suc, ◌==◌, Bool, true, false, not, ◌&&◌, List, [], ◌∷◌, ◌++◌, Option, none, some,
  if◌then◌else◌,
}
use nkn_sdk_go.Base.Int.{ℤ, pos}
use nkn_sdk_go.Base.Bytes.{Bytes, bytes_eq}
use nkn_sdk_go.Errors.{Outcome, ok, err, panic}
use nkn_sdk_go.Action.{Action, pure, modify, ◌>>=◌, ◌>>◌}
use nkn_sdk_go.Channel.{Emitter, Received, value, nil_value, blocked, next, new_emitter}
use nkn_sdk_go.Message.{Nacl, Codec, is_nil}
use nkn_sdk_go.Client.Keys.{Keys}
use nkn_sdk_go.Client.State.{
  Client, Node, Net, Handler, waiting, busy, connecting, outside, close_client, reconnect,
  write_message, record_send_failure, adopt_connection,
}
use nkn_sdk_go.Client.Handling.{Json, Wire, Reader, Job, Frame, on_client, run_job, handle_message}

-- The loop that reads a connection: it was left or never started, is before its test of `IsClosed`, or
-- waits for a message.
pub data LoopState : Type 0 where
  absent tests reads : LoopState

-- `handleReconnect`: before its next request; in `connect`, with the node if one is known; in
-- `connectToNode` after the critical section, with the connection before and the new one; at the end of
-- `connectToNode`; or left.
pub data Phase : Type 0 where
  resting : Phase
  dialing : Option Node → Phase
  starting : Option ℕ → ℕ → Phase
  returning : Phase
  ended : Phase

-- A running client. `dialed` is the number of the next connection.
pub record Link (W : Type 0) : Type 0 where
  pub reader : Reader W
  pub loops : ℕ → LoopState
  pub pingers : ℕ → Bool
  pub greeters : ℕ → Bool
  pub phase : Phase
  pub dialed : ℕ

-- What else is called on a connection: the request `setClient`, for an address and perhaps a salt with a
-- signature, and a ping. `url` makes the URL of an RPC address, `finished` is the name of the state in sync.
pub record Socket (W : Type 0) : Type 0 where
  pub write_request : ℕ → Bytes → Option (Bytes × Bytes) → Action W (Unit {0})
  pub write_ping : ℕ → Action W (Unit {0})
  pub url : Bytes → Bytes
  pub finished : Bytes

-- A part of `Reconnect`, of the reply to setClient or of the answer to a challenge, when other goroutines come
-- between the parts.
pub data Part : Type 0 where
  tests_part : Part
  sends_part : Option Node → Part
  set_client_part : Bytes → ℤ → Part
  announce_part : Option Node → Part
  challenge_part : Bytes → Bytes → Part

pub data Turn : Type 0 where
  divided : Part → Turn
  user_closes : Turn
  user_reconnects : Option Node → Turn
  user_writes : Bytes → Turn
  counts_failure : Turn
  runs_job : ℕ → Turn
  tests_closed : ℕ → Turn
  reads_frame : ℕ → ℤ → Frame → Turn
  read_fails : ℕ → Turn
  pings : ℕ → Turn
  stops_pinging : ℕ → Turn
  greets : ℕ → Bool → Turn
  takes_request : Turn
  finds_node : Node → Turn
  adopts : ℤ → Outcome Bytes → Turn
  starts_loops : Turn
  returns : Turn

abbrev pub set_at {ℓ} : {A : Type ℓ} → ℕ → A → (ℕ → A) → ℕ → A
set_at n x f m = if m == n then x else f m

abbrev pub is_testing : LoopState → Bool
is_testing tests = true
is_testing absent = false
is_testing reads = false

abbrev pub is_reading : LoopState → Bool
is_reading reads = true
is_reading absent = false
is_reading tests = false

abbrev pub is_running : LoopState → Bool
is_running absent = false
is_running tests = true
is_running reads = true

-- `rpcAddr` as a list: the node's own server, if the node answered that it is in sync.
abbrev pub if_finished : Bytes → Bytes → Outcome Bytes → List Bytes
if_finished addr finished (ok s) = if bytes_eq s finished then addr ∷ [] else []
if_finished addr finished (err e) = []
if_finished addr finished panic = []

abbrev pub rpc_servers : {W : Type 0} → Socket W → Node → Outcome Bytes → List Bytes
rpc_servers socket node answer =
    if is_nil node.rpc_addr
    then []
    else if_finished (socket.url node.rpc_addr) socket.finished answer

-- The job with a number, and the others.
abbrev pub job_at : ℕ → List Job → Option Job
job_at k [] = none
job_at zero (j ∷ js) = some j
job_at (suc k) (j ∷ js) = job_at k js

abbrev pub without_job : ℕ → List Job → List Job
without_job k [] = []
without_job zero (j ∷ js) = js
without_job (suc k) (j ∷ js) = j ∷ without_job k js

-- A call whose error goes to the log or to the user, and not further.
abbrev pub logged {ℓ} : {S : Type ℓ} → Outcome (Unit {0}) × S → Outcome (Unit {0}) × S
logged (ok u, s) = (ok tt, s)
logged (err e, s) = (ok tt, s)
logged (panic, s) = (panic, s)

-- `new_client` is the client that `NewClient` makes; `size` is `cfg.MsgChanLen`.
pub new_client : {W : Type 0} → ℕ → Keys W → Client W
unfolding new_emitter
new_client size keys = record {
  keys = keys;
  is_closed = false;
  state = connecting;
  node = none;
  conn = none;
  stats = none;
  sig_chain_block_hash = [];
  on_connect = new_emitter 1 false;
  on_message = new_emitter size false;
  on_message_event = new_emitter 100 false;
  reconnect_closed = false;
  handler = waiting;
  challenge_signature = new_emitter 1 false;
  rpc_server = [];
}

-- The node that `connect` found.
abbrev pub keep_node : Phase → Node → Phase
keep_node (dialing none) node = dialing (some node)
keep_node (dialing (some k)) node = dialing (some k)
keep_node resting node = resting
keep_node (starting p n) node = starting p n
keep_node returning node = returning
keep_node ended node = ended

module _ {W : Type 0} where
  abbrev pub on_reader {ℓ} : {A : Type ℓ} → Action (Reader W) A → Action (Link W) A
  on_reader m l = let (o, r) = m l.reader in (o, record l { reader = r })

  abbrev pub client_of : Link W → Client W
  client_of l = l.reader.inbox.client

  abbrev pub set_loop : ℕ → LoopState → Action (Link W) (Unit {0})
  set_loop n s = modify (λ l. record l { loops = set_at n s l.loops })

  abbrev pub set_phase : Phase → Action (Link W) (Unit {0})
  set_phase p = modify (λ l. record l { phase = p })

  abbrev pub when : (Link W → Bool) → Action (Link W) (Unit {0}) → Action (Link W) (Unit {0})
  when test m l = if test l then m l else (ok tt, l)

  -- `c.Reconnect(nil)`
  abbrev pub ask_again : Action (Link W) (Unit {0})
  ask_again = on_reader (on_client (reconnect none))

  -- A write of a goroutine; one that fails asks for a reconnect.
  abbrev pub or_reconnect :
      Outcome (Unit {0}) × Link W → Action (Link W) (Unit {0}) → Outcome (Unit {0}) × Link W
  or_reconnect (ok u, l) left = (ok tt, l)
  or_reconnect (err e, l) left = (do ask_again; left) l
  or_reconnect (panic, l) left = (panic, l)

  -- The goroutine of job `k` runs.
  abbrev pub run_some :
      (Job → Action (Client W) (Unit {0})) → ℕ → Option Job → Action (Link W) (Unit {0})
  run_some run k none l = (ok tt, l)
  run_some run k (some j) l =
      let r : Reader W = record l.reader { jobs = without_job k l.reader.jobs } in
      on_reader (on_client (run j)) (record l { reader = r })

  -- The loop is left when the client is closed.
  pub test_closed : ℕ → Action (Link W) (Unit {0})
  test_closed n =
      when (λ l. is_testing (l.loops n))
        (λ l. set_loop n (if (client_of l).is_closed then absent else reads) l)

  -- The deferred `close(done)` is that the loop is absent.
  pub fail_read : ℕ → Action (Link W) (Unit {0})
  fail_read n = when (λ l. is_reading (l.loops n)) (do ask_again; set_loop n absent)

  abbrev pub set_pinger : ℕ → Bool → Action (Link W) (Unit {0})
  set_pinger n b = modify (λ l. record l { pingers = set_at n b l.pingers })

  abbrev pub set_greeter : ℕ → Bool → Action (Link W) (Unit {0})
  set_greeter n b = modify (λ l. record l { greeters = set_at n b l.greeters })

  -- `case <-done: return`
  pub stop_pinging : ℕ → Action (Link W) (Unit {0})
  stop_pinging n = when (λ l. l.pingers n && not (is_running (l.loops n))) (set_pinger n false)

  -- `for node := range c.reconnectChan { if c.IsClosed() { return } ... }`
  abbrev pub take_from : Phase → Handler → Action (Link W) (Unit {0})
  take_from resting (busy node) l =
      set_phase (if (client_of l).is_closed then ended else dialing node) l
  take_from resting waiting l =
      if (client_of l).reconnect_closed then set_phase ended l else (ok tt, l)
  take_from (dialing k) h l = (ok tt, l)
  take_from (starting p n) h l = (ok tt, l)
  take_from returning h l = (ok tt, l)
  take_from ended h l = (ok tt, l)

  pub take_request : Action (Link W) (Unit {0})
  take_request l = take_from l.phase (client_of l).handler l

  abbrev pub with_client : (Client W → Client W) → Link W → Link W
  with_client f l = record l {
    reader = record l.reader { inbox = record l.reader.inbox { client = f l.reader.inbox.client } };
  }

  -- `connect` returned to the loop.
  abbrev pub return_from : Phase → Action (Link W) (Unit {0})
  return_from returning l =
      (ok tt, record (with_client (λ c. record c { handler = waiting }) l) { phase = resting })
  return_from resting l = (ok tt, l)
  return_from (dialing k) l = (ok tt, l)
  return_from (starting p n) l = (ok tt, l)
  return_from ended l = (ok tt, l)

  -- The three goroutines of a connection.
  abbrev pub begin_loops : ℕ → Link W → Link W
  begin_loops n l = record l {
    loops = set_at n tests l.loops;
    pingers = set_at n true l.pingers;
    greeters = set_at n true l.greeters;
  }
