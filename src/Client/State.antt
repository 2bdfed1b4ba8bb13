-- ===== src/Client/State.antt =====
-- client.go: the state of a client, and the operations on it that other parts call: `Close`,
-- `Reconnect`, `writeMessage`, the statistics, and what `connectToNode` does once it has a connection.
pub mod Follows
pub mod Invariant
pub mod Lifecycle
pub mod Race
pub mod Statistics
mod Tests
use nkn_sdk_go.Base.{
  ℕ, suc, ◌+◌, ◌≡◌, Bool, true, false, not, ◌||◌, List, [], ◌∷◌, Option, none, some, if◌then◌else◌,
}
use nkn_sdk_go.Base.Int.{ℤ, pos}
use nkn_sdk_go.Base.Bytes.{Bytes, bytes_eq}
use nkn_sdk_go.Errors.{Outcome, ok, err, panic}
use nkn_sdk_go.Action.{Action, pure, raise, lift, gets, modify, ◌>>=◌, ◌>>◌}
use nkn_sdk_go.Channel.{Emitter, receive, close, try_send}
use nkn_sdk_go.Message.{PayloadType}
use nkn_sdk_go.Client.Keys.{Keys}

pub data ConnState : Type 0 where
  connecting connected disconnected : ConnState

-- `ClientStats`; times are Unix milliseconds.
pub record Stats : Type 0 where
  pub connect_time : ℤ
  pub reconnect_count : ℕ
  pub last_reconnect : ℤ
  pub send_failure_count : ℕ

-- `&ClientStats{}`
abbrev pub new_stats : Stats
new_stats = record {
  connect_time = pos 0;
  reconnect_count = 0;
  last_reconnect = pos 0;
  send_failure_count = 0;
}

-- `Node` of rpc.go.
pub record Node : Type 0 where
  pub addr : Bytes
  pub rpc_addr : Bytes
  pub pub_key : Bytes
  pub id : Bytes
  pub sdp : Bytes

-- `Message`, less the reply function, which its users call as `new_reply_payload` and a send.
pub record Message : Type 0 where
  pub src : Bytes
  pub content : Bytes
  pub type : PayloadType
  pub encrypted : Bool
  pub message_id : Bytes
  pub no_reply : Bool

pub data EventType : Type 0 where
  send send_success send_failed received received_reply : EventType

-- `MessageEvent`, less the time stamp.
pub record MessageEvent : Type 0 where
  pub event_type : EventType
  pub sub_client_id : ℤ
  pub destinations : List Bytes
  pub src : Bytes
  pub message_id : Bytes
  pub message_type : PayloadType
  pub encrypted : Bool
  pub data_size : ℕ
  pub no_reply : Bool

-- `handleReconnect`: it waits on the unbuffered reconnect channel, or is busy with a request.
pub data Handler : Type 0 where
  waiting : Handler
  busy : Option Node → Handler

-- `Client`. A connection is known by a number.
pub record Client (W : Type 0) : Type 0 where
  pub keys : Keys W
  pub is_closed : Bool
  pub state : ConnState
  pub node : Option Node
  pub conn : Option ℕ
  pub stats : Option Stats
  pub sig_chain_block_hash : Bytes
  pub on_connect : Emitter (Option Node)
  pub on_message : Emitter Message
  pub on_message_event : Emitter MessageEvent
  pub reconnect_closed : Bool
  pub handler : Handler
  pub challenge_signature : Emitter (Bytes × Bytes)
  pub rpc_server : List Bytes

-- The calls on a websocket connection, by its number.
pub record Net (W : Type 0) : Type 0 where
  pub write : ℕ → Bytes → Action W (Unit {0})
  pub close_conn : ℕ → Action W (Unit {0})

abbrev pub stats_or_new : Option Stats → Stats
stats_or_new none = new_stats
stats_or_new (some s) = s

-- `prevNode.ID != node.ID || prevNode.Addr != node.Addr`
abbrev pub node_changed : Node → Node → Bool
node_changed prev node = not (bytes_eq prev.id node.id) || not (bytes_eq prev.addr node.addr)

-- The statistics in `connectToNode`: fresh for another node, kept for the same one.
pub connection_stats : Option Node → Node → ℤ → Option Stats → Option Stats
connection_stats none node now stats = some (record (stats_or_new stats) { connect_time = now })
connection_stats (some prev) node now stats =
    if node_changed prev node
    then some (record {
      connect_time = now;
      reconnect_count = 0;
      last_reconnect = now;
      send_failure_count = 0;
    })
    else stats

-- The statistics in the handler of `setClient`.
pub set_client_stats : ConnState → ℤ → Option Stats → Option Stats
set_client_stats state now none = some (record new_stats { connect_time = now })
set_client_stats connected now (some s) = some s
set_client_stats state now (some s) =
    some (record s { reconnect_count = s.reconnect_count + 1; last_reconnect = now })

module _ {W : Type 0} where
  -- A call that only changes the outside world.
  abbrev pub outside : {A : Type 0} → Action W A → Action (Client W) A
  outside m c = let (o, w) = m c.keys.world in (o, record c { keys = record c.keys { world = w } })

  -- A call on one of the client's emitters, stored back by `set`.
  abbrev pub store {ℓ} :
      {E : Type ℓ} → Outcome E → (E → Client W) → Client W → Outcome (Unit {0}) × Client W
  store (ok e) set c = (ok tt, set e)
  store (err x) set c = (err x, c)
  store panic set c = (panic, c)

  abbrev pub on_connect_do :
      (Emitter (Option Node) → Outcome (Emitter (Option Node))) → Action (Client W) (Unit {0})
  on_connect_do f c = store (f c.on_connect) (λ e. record c { on_connect = e }) c

  abbrev pub on_message_do :
      (Emitter Message → Outcome (Emitter Message)) → Action (Client W) (Unit {0})
  on_message_do f c = store (f c.on_message) (λ e. record c { on_message = e }) c

  abbrev pub on_event_do :
      (Emitter MessageEvent → Outcome (Emitter MessageEvent)) → Action (Client W) (Unit {0})
  on_event_do f c = store (f c.on_message_event) (λ e. record c { on_message_event = e }) c

  abbrev pub challenge_do :
      (Emitter (Bytes × Bytes) → Outcome (Emitter (Bytes × Bytes))) → Action (Client W) (Unit {0})
  challenge_do f c = store (f c.challenge_signature) (λ e. record c { challenge_signature = e }) c

  -- `close(c.reconnectChan)`
  abbrev pub close_reconnect : Action (Client W) (Unit {0})
  close_reconnect c =
      if c.reconnect_closed then (panic, c) else (ok tt, record c { reconnect_closed = true })

  -- `c.conn.Close()`: with no connection this is a call through a nil interface.
  abbrev pub close_current : Net W → Action (Client W) (Unit {0})
  close_current net c = elim c.conn [ none ↦ (panic, c) | some n ↦ outside (net.close_conn n) c ]

  -- The channels are closed whatever `c.conn.Close()` returns, and its error is the result.
  abbrev pub and_then :
      Action (Client W) (Unit {0}) → Action (Client W) (Unit {0}) → Action (Client W) (Unit {0})
  and_then m k c =
      let (o, c') = m c in elim o [ ok u ↦ k c' | err e ↦ (do k; raise e) c' | panic ↦ (panic, c') ]

  -- The part of `Close` up to the connection.
  pub close_channels : Action (Client W) (Unit {0})
  close_channels = do
    modify (λ s. record s { is_closed = true; state = disconnected })
    on_connect_do close
    on_message_do close
    on_event_do close
    close_reconnect

  -- `Close`.
  pub close_client : Net W → Action (Client W) (Unit {0})
  close_client net c =
      if c.is_closed
      then (ok tt, c)
      else (do close_channels; and_then (close_current net) (challenge_do close)) c

  -- The first part of `Reconnect`: the new state, and whether to go on.
  pub reconnect_check : Client W → Bool × Client W
  reconnect_check c = (not c.is_closed, record c { state = connecting })

  -- `select { case c.reconnectChan <- node: default: }`, on an unbuffered channel.
  pub reconnect_send : Option Node → Action (Client W) (Unit {0})
  reconnect_send node c = if c.reconnect_closed then (panic, c) else elim c.handler [
    | waiting ↦ (ok tt, record c { handler = busy node })
    | busy n ↦ (ok tt, c)
  ]

  -- `Reconnect`, when nothing comes between the two parts.
  pub reconnect : Option Node → Action (Client W) (Unit {0})
  unfolding reconnect_check reconnect_send
  reconnect node c =
      let (go_on, c') = reconnect_check c in if go_on then reconnect_send node c' else (ok tt, c')

  -- The part of `writeMessage` under the lock. With no connection it panics.
  abbrev pub write_locked : Net W → Bytes → Action (Client W) (Unit {0})
  write_locked net buf c = elim c.conn [ none ↦ (panic, c) | some n ↦ outside (net.write n buf) c ]

  -- `writeMessage`: a write that fails asks for a reconnect. With no connection it panics.
  unfoldable pub write_message : Net W → Bytes → Action (Client W) (Unit {0})
  write_message net buf c = elim c.conn [
    | none ↦ (panic, c)
    | some n ↦
        let (o, c') = outside (net.write n buf) c in
        elim o [
          | ok u ↦ (ok tt, c')
          | err e ↦ (do reconnect none; raise e) c'
          | panic ↦ (panic, c')
        ]
  ]

  -- `c.Stats.SendFailureCount++`, with the statistics made where there were none.
  pub record_send_failure : Client W → Client W
  record_send_failure c =
      let s = stats_or_new c.stats in
      record c { stats = some (record s { send_failure_count = s.send_failure_count + 1 }) }

  -- The critical section of `connectToNode`, once there is a connection. `rpc_addr` is the node's
  -- own RPC address if that node answered that it is in sync, else nothing.
  unfoldable pub adopt_connection : ℕ → Node → ℤ → List Bytes → Client W → Client W
  unfolding connection_stats
  adopt_connection conn node now rpc_addr c = record c {
    conn = some conn;
    node = some node;
    state = connecting;
    stats = connection_stats c.node node now c.stats;
    rpc_server = rpc_addr;
  }

  -- The new statistics and state of a connected client.
  abbrev pub mark_connected : ℤ → Client W → Client W
  mark_connected now c = record c {
    stats = set_client_stats c.state now c.stats;
    state = connected;
  }

  -- The part of the case `setClientAction` under the lock.
  pub set_client_locked : Bytes → ℤ → Client W → Client W
  unfolding set_client_stats
  set_client_locked block_hash now c =
      let c1 = record c { sig_chain_block_hash = block_hash } in
      if c1.is_closed then c1 else mark_connected now c1

  -- `c.OnConnect.receive(node)`, after the lock is released.
  abbrev pub announce : Option Node → Action (Client W) (Unit {0})
  announce node = on_connect_do (λ e. receive e node)

  -- `select { case c.chChallengeSignature <- saltAndSig: default: }`, with no lock held.
  abbrev pub send_challenge : Bytes × Bytes → Action (Client W) (Unit {0})
  send_challenge proof = challenge_do (λ e. try_send e proof)

  -- The case `setClientAction` of `handleMessage`, for a decoded result, when nothing comes between the
  -- release of the lock and `OnConnect`.
  pub handle_set_client : Bytes → ℤ → Action (Client W) (Unit {0})
  unfolding set_client_stats
  handle_set_client block_hash now c =
      let c1 = record c { sig_chain_block_hash = block_hash } in
      if c1.is_closed then (ok tt, c1) else announce c1.node (mark_connected now c1)
