-- ===== src/MultiClient/Hub.antt =====
-- multiclient.go: the channels of a multiclient, what the goroutines of `NewMultiClient` put on them that
-- listen to the sub clients, and `Close`. Each goroutine's step from one lock or channel operation to the
-- next is one operation here.
pub mod Once
pub mod Closed
mod Tests
use nkn_sdk_go.Base.{Bool, true, false, List, [], ◌∷◌, Option, length, if◌then◌else◌}
use nkn_sdk_go.Base.Int.{ℤ}
use nkn_sdk_go.Base.Bytes.{Bytes, bytes_eq}
use nkn_sdk_go.Errors.{Outcome, ok, err, panic}
use nkn_sdk_go.Action.{Action, pure, gets, modify, ◌>>=◌, ◌>>◌}
use nkn_sdk_go.Channel.{Emitter, receive, close}
use nkn_sdk_go.Identifier.{remove_identifier}
use nkn_sdk_go.Client.State.{Node, Message, MessageEvent, EventType, received}

-- The part of `MultiClient` that its goroutines share: the ids in `msgCache` that have not expired, and
-- whether `onClose` is closed.
pub record Hub : Type 0 where
  pub on_connect : Emitter (Option Node)
  pub on_message : Emitter Message
  pub on_message_event : Emitter MessageEvent
  pub msg_cache : List Bytes
  pub is_closed : Bool
  pub on_close : Bool

-- A send on one of the channels, or its close.
abbrev pub store {ℓ} : {E : Type ℓ} → Outcome E → (E → Hub) → Hub → Outcome (Unit {0}) × Hub
store (ok e) set h = (ok tt, set e)
store (err x) set h = (err x, h)
store panic set h = (panic, h)

abbrev pub on_connect_do :
    (Emitter (Option Node) → Outcome (Emitter (Option Node))) → Action Hub (Unit {0})
on_connect_do f h = store (f h.on_connect) (λ e. record h { on_connect = e }) h

abbrev pub on_message_do : (Emitter Message → Outcome (Emitter Message)) → Action Hub (Unit {0})
on_message_do f h = store (f h.on_message) (λ e. record h { on_message = e }) h

abbrev pub on_message_event_do :
    (Emitter MessageEvent → Outcome (Emitter MessageEvent)) → Action Hub (Unit {0})
on_message_event_do f h = store (f h.on_message_event) (λ e. record h { on_message_event = e }) h

abbrev pub cached : Bytes → List Bytes → Bool
cached k [] = false
cached k (j ∷ js) = if bytes_eq j k then true else cached k js

-- A goroutine gets a node from the `OnConnect` of its client.
pub receive_node : Option Node → Action Hub (Unit {0})
receive_node node h = if h.is_closed then (ok tt, h) else on_connect_do (λ e. receive e node) h

-- `msg.Src, _ = removeIdentifier(msg.Src)`
abbrev pub with_base_src : Message → Message
with_base_src m = record m { src = (remove_identifier m.src).0 }

abbrev pub receive_event : ℤ → Message → MessageEvent
receive_event i m = record {
  event_type = received;
  sub_client_id = i;
  destinations = [];
  src = m.src;
  message_id = m.message_id;
  message_type = m.type;
  encrypted = m.encrypted;
  data_size = length m.content;
  no_reply = m.no_reply;
}

-- A goroutine gets a message that is of no session: the event, and the look into the cache.
pub observe : ℤ → Message → Action Hub Bool
observe i m = do
  on_message_event_do (λ e. receive e (receive_event i (with_base_src m)))
  gets (λ h. cached m.message_id h.msg_cache)

-- `m.msgCache.Set(...)`, and the message, unless the multiclient was closed meanwhile.
pub keep : Message → Action Hub (Unit {0})
keep m = do
  modify (λ h. record h { msg_cache = m.message_id ∷ h.msg_cache })
  (λ h. if h.is_closed then (ok tt, h) else on_message_do (λ e. receive e (with_base_src m)) h)

-- What a goroutine does with a message, when no other gets in between.
pub receive_message : ℤ → Message → Action Hub (Unit {0})
unfolding observe keep
receive_message i m = do is_repeat ← observe i m; if is_repeat then pure tt else keep m

-- `Close`, less the sessions and the clients, which it closes too.
pub close_hub : Action Hub (Unit {0})
close_hub h =
    if h.is_closed
    then (ok tt, h)
    else (do
      modify (λ h. record h { is_closed = true })
      on_connect_do close
      on_message_do close
      on_message_event_do close
      (λ h. if h.on_close then (panic, h) else (ok tt, record h { on_close = true })))
        h
