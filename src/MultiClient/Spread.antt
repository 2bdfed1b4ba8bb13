-- ===== src/MultiClient/Spread.antt =====
-- multiclient.go: `Send`, with a config that is merged with the defaults, called in a world `w`, and its
-- goroutine: the events, the reply channel for each client that sends, and the reply that is passed on.
-- `Send` returns at the first client that has sent, and the goroutine goes on; the model is all of it.
pub mod Trials
pub mod Tried
pub mod Report
pub mod Ends
pub mod Begins
mod Tests
use nkn_sdk_go.Base.{
  ℕ, zero, suc, Bool, true, false, not, List, [], ◌∷◌, ◌++◌, Option, none, some, length,
  if◌then◌else◌,
}
use nkn_sdk_go.Base.Int.{ℤ, negsuc}
use nkn_sdk_go.Base.Bytes.{Bytes}
use nkn_sdk_go.Errors.{Error, Outcome, ok, err, panic}
use nkn_sdk_go.Action.{Action, lift, gets, modify, ◌>>=◌, ◌>>◌}
use nkn_sdk_go.Channel.{Emitter, new_emitter, receive}
use nkn_sdk_go.Message.{Nacl, Codec, Payload, Content}
use nkn_sdk_go.Client.State.{
  Client, Net, Message, MessageEvent, EventType, send, send_success, send_failed, received_reply,
}
use nkn_sdk_go.Client.Outbound.{Signing}
use nkn_sdk_go.Client.Send.{SendConfig, send_event, payload_of}
use nkn_sdk_go.MultiClient.Policy.{clients_by_policy}
use nkn_sdk_go.MultiClient.Hub.{with_base_src}
use nkn_sdk_go.MultiClient.Sending.{
  MultiClient, SendResult, delivered, failed, get_client, send_with_client, unique_client_ids,
}

-- What the goroutine changes: `response_channels` lists the clients that got the channel for the reply,
-- with the id of the message it is for.
pub record Dispatch (W : Type 0) : Type 0 where
  pub multi : MultiClient W
  pub events : Emitter MessageEvent
  pub response_channels : List (ℤ × Bytes)
  pub sent : ℕ
  pub errs : List Error

-- The event of a sub client.
abbrev pub sub_client_event : EventType → ℤ → List Bytes → Payload → SendConfig → MessageEvent
sub_client_event kind i ds payload cfg = record (send_event kind ds payload cfg) {
  sub_client_id = i;
}

-- `if !config.NoReply { client.responseChannels.Add(...) }`
abbrev pub with_channel : {W : Type 0} → ℤ → Payload → SendConfig → Dispatch W → Dispatch W
with_channel i payload cfg d = record d {
  response_channels =
      if cfg.no_reply
      then d.response_channels
      else d.response_channels ++ (i, payload.message_id) ∷ [];
}

abbrev pub result_from : ℕ → List Error → SendResult
result_from zero errs = failed errs
result_from (suc n) errs = delivered

-- The event of a reply that is passed on.
abbrev pub reply_event : Payload → Message → MessageEvent
reply_event payload msg = record {
  event_type = received_reply;
  sub_client_id = negsuc 0;
  destinations = [];
  src = msg.src;
  message_id = payload.message_id;
  message_type = msg.type;
  encrypted = msg.encrypted;
  data_size = length msg.content;
  no_reply = msg.no_reply;
}

module _ {W : Type 0} where
  abbrev pub emitted : Outcome (Emitter MessageEvent) → Dispatch W → Outcome (Unit {0}) × Dispatch W
  emitted (ok e) d = (ok tt, record d { events = e })
  emitted (err x) d = (err x, d)
  emitted panic d = (panic, d)

  abbrev pub emit_event : MessageEvent → Action (Dispatch W) (Unit {0})
  emit_event x d = emitted (receive d.events x) d

  -- What follows `sendWithClient`, by how that ended.
  pub report_client :
      ℤ
      → List Bytes
      → Payload
      → SendConfig
      → Outcome (Unit {0}) × MultiClient W
      → Dispatch W
      → Outcome (Unit {0}) × Dispatch W
  report_client i ds payload cfg (ok u, m) d =
      (do
        emit_event (sub_client_event send_success i ds payload cfg)
        modify (λ d. record d { sent = suc d.sent }))
        (record d { multi = m })
  report_client i ds payload cfg (err e, m) d =
      (do
        emit_event (sub_client_event send_failed i ds payload cfg)
        modify (λ d. record d { errs = d.errs ++ e ∷ [] }))
        (record d { multi = m })
  report_client i ds payload cfg (panic, m) d = (panic, record d { multi = m })

  -- The end of the goroutine: the first reply that came to one of the clients goes to `onReply`.
  pub pass_reply : Payload → Message → Action (Dispatch W) (Emitter Message)
  pass_reply payload msg = do
    emit_event (reply_event payload (with_base_src msg))
    lift (receive (new_emitter 1 false) (with_base_src msg))

module _ {W : Type 0} (nacl : Nacl W) (codec : Codec) (secret : Bytes) (signing : Signing W)
    (net : Net W) (process_dests : List Bytes → Action W (List Bytes)) where
  abbrev pub try_present :
      Option (Client W) → ℤ → List Bytes → Payload → SendConfig → Action (Dispatch W) (Unit {0})
  try_present none i ds payload cfg d = (ok tt, d)
  try_present (some c) i ds payload cfg d =
      report_client i ds payload cfg
        (send_with_client nacl codec secret signing net process_dests i ds payload
          (not cfg.unencrypted) cfg.max_holding_seconds d.multi)
        (with_channel i payload cfg d)

  -- The loop over `uniqueClientIDs`.
  pub try_each : List ℤ → List Bytes → Payload → SendConfig → Action (Dispatch W) (Unit {0})
  unfolding report_client
  try_each [] ds payload cfg d = (ok tt, d)
  try_each (i ∷ is) ds payload cfg d =
      (try_present (get_client i d.multi.clients) i ds payload cfg >> try_each is ds payload cfg) d

  -- `Send`, from resolved destinations and a payload on; `now` is the time that the policy reads.
  pub dispatch : ℤ → List Bytes → Payload → SendConfig → Action (Dispatch W) SendResult
  unfolding try_each
  dispatch now ds payload cfg d =
      (do
        modify (λ d. record d { sent = 0; errs = [] })
        emit_event (send_event send ds payload cfg)
        try_each (unique_client_ids (clients_by_policy d.multi.policy now d.multi.clients)) ds
            payload cfg
        gets (λ d. result_from d.sent d.errs))
        d

  -- `Send`
  pub send_out :
      (List Bytes → Action W (List Bytes))
      → ℤ
      → List Bytes
      → Content
      → SendConfig
      → W
      → Action (Dispatch W) SendResult
  unfolding dispatch
  send_out resolve now dests content cfg w =
      let (resolved, w') = resolve dests w in
      do
        ds ← lift resolved
        payload ←
            lift (payload_of nacl codec secret signing net process_dests resolve content cfg w').0
        dispatch now ds payload cfg
