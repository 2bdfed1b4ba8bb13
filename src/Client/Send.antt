-- ===== src/Client/Send.antt =====
-- client.go: `Send`: resolving the destinations, the payload, the events around the call of `send`, and
-- the channel for a reply.
pub mod Reply
mod Tests
use nkn_sdk_go.Base.{Bool, true, false, not, List, [], Option, none, some, if◌then◌else◌}
use nkn_sdk_go.Base.Int.{ℤ, negsuc}
use nkn_sdk_go.Base.Bytes.{Bytes, Dict, lookup, insert}
use nkn_sdk_go.Errors.{Error, Outcome, ok, err, panic}
use nkn_sdk_go.Action.{Action, pure, raise, modify, ◌>>=◌, ◌>>◌}
use nkn_sdk_go.Channel.{Emitter, new_emitter}
use nkn_sdk_go.Message.{
  Nacl, Codec, Payload, Content, ready, bytes, string, nil, unsupported, new_message_payload,
}
use nkn_sdk_go.Client.State.{
  Client, Net, Message, MessageEvent, EventType, send, send_success, send_failed, outside,
}
use nkn_sdk_go.Client.Outbound.{Signing}
use nkn_sdk_go.Client.Batch.{send_timeout}
use nkn_sdk_go.Client.Inbound.{Inbox, contains, emit}

-- The part of `MessageConfig` that `Send` reads, merged with the defaults.
pub record SendConfig : Type 0 where
  pub unencrypted : Bool
  pub no_reply : Bool
  pub max_holding_seconds : ℤ
  pub message_id : Bytes

-- The event of `Send`; -1 is for no sub client.
pub send_event : EventType → List Bytes → Payload → SendConfig → MessageEvent
send_event kind dests payload cfg = record {
  event_type = kind;
  sub_client_id = negsuc 0;
  destinations = dests;
  src = [];
  message_id = payload.message_id;
  message_type = payload.type;
  encrypted = not cfg.unencrypted;
  data_size = 0;
  no_reply = cfg.no_reply;
}

-- `responseChannels.Add`, which leaves an entry that is there.
pub add_channel : Bytes → Emitter Message → Dict (Emitter Message) → Dict (Emitter Message)
add_channel id channel d = if contains (lookup id d) then d else insert id channel d

module _ {W : Type 0} (nacl : Nacl W) (codec : Codec) (secret : Bytes) (signing : Signing W)
    (net : Net W) (process_dests : List Bytes → Action W (List Bytes))
    (resolve : List Bytes → Action W (List Bytes)) where
  abbrev pub on_client : {A : Type 0} → Action (Client W) A → Action (Inbox W) A
  on_client m b = let (o, c) = m b.client in (o, record b { client = c })

  -- `data.(*payloads.Payload)`, or `newMessagePayload`
  unfoldable pub payload_of : Content → SendConfig → Action W Payload
  payload_of (ready p) cfg = pure p
  payload_of (bytes b) cfg = new_message_payload nacl codec (bytes b) cfg.message_id cfg.no_reply
  payload_of (string t) cfg = new_message_payload nacl codec (string t) cfg.message_id cfg.no_reply
  payload_of nil cfg = new_message_payload nacl codec nil cfg.message_id cfg.no_reply
  payload_of unsupported cfg =
      new_message_payload nacl codec unsupported cfg.message_id cfg.no_reply

  -- `if !cfg.NoReply { ... }`
  unfoldable pub await_reply : Payload → SendConfig → Action (Inbox W) (Unit {0})
  unfolding add_channel
  await_reply payload cfg =
      if cfg.no_reply
      then pure tt
      else modify (λ b. record b {
        waiting = add_channel payload.message_id (new_emitter 1 false) b.waiting;
      })

  -- What follows the call of `send`, by how that ended.
  unfoldable pub report :
      List Bytes
      → Payload
      → SendConfig
      → Outcome (Unit {0}) × Client W
      → Inbox W
      → Outcome (Unit {0}) × Inbox W
  unfolding send_event await_reply
  report ds payload cfg (ok u, c) b =
      (do emit nacl codec secret (send_event send_success ds payload cfg); await_reply payload cfg)
        (record b { client = c })
  report ds payload cfg (err e, c) b =
      (do emit nacl codec secret (send_event send_failed ds payload cfg); raise e)
        (record b { client = c })
  report ds payload cfg (panic, c) b = (panic, record b { client = c })

  -- `send`, and what follows it.
  unfoldable pub send_reported : List Bytes → Payload → SendConfig → Action (Inbox W) (Unit {0})
  unfolding report
  send_reported ds payload cfg b =
      report ds payload cfg
        (send_timeout nacl codec secret signing net process_dests ds payload (not cfg.unencrypted)
          cfg.max_holding_seconds b.client)
        b

  -- `Send`; the channel for the reply is the one that waits in the inbox.
  unfoldable pub send_message : List Bytes → Content → SendConfig → Action (Inbox W) (Unit {0})
  unfolding payload_of send_reported send_event
  send_message dests content cfg = do
    ds ← on_client (outside (resolve dests))
    payload ← on_client (outside (payload_of content cfg))
    emit nacl codec secret (send_event send ds payload cfg)
    send_reported ds payload cfg
