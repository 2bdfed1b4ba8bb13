-- ===== src/MultiClient/Direct.antt =====
-- multiclient.go: `SendWithClient`, with a config that is merged with the defaults. It is called in a
-- world `w`, in which the destinations are resolved.
pub mod Ends
mod Tests
use nkn_sdk_go.Base.{Bool, true, false, not, List, Option, none, some}
use nkn_sdk_go.Base.Int.{ℤ}
use nkn_sdk_go.Base.Bytes.{Bytes}
use nkn_sdk_go.Errors.{Outcome, ok, err, panic, nil_client}
use nkn_sdk_go.Action.{Action, pure, raise, lift, modify, ◌>>=◌, ◌>>◌}
use nkn_sdk_go.Channel.{Emitter, new_emitter}
use nkn_sdk_go.Message.{Nacl, Codec, Payload, Content, new_message_payload}
use nkn_sdk_go.Client.State.{Client, Net, Message, send, send_success, send_failed}
use nkn_sdk_go.Client.Outbound.{Signing}
use nkn_sdk_go.Client.Send.{SendConfig}
use nkn_sdk_go.MultiClient.Sending.{MultiClient, get_client, send_with_client}
use nkn_sdk_go.MultiClient.Spread.{Dispatch, sub_client_event, with_channel, emit_event}

-- What follows the call of `sendWithClient`, by how that ended.
abbrev pub report_one :
    {W : Type 0}
    → ℤ
    → List Bytes
    → Payload
    → SendConfig
    → Outcome (Unit {0}) × MultiClient W
    → Action (Dispatch W) (Emitter Message)
report_one i ds payload cfg (ok u, m) d =
    (do
      emit_event (sub_client_event send_success i ds payload cfg)
      modify (with_channel i payload cfg)
      pure (new_emitter 1 false))
      (record d { multi = m })
report_one i ds payload cfg (err e, m) d =
    (do emit_event (sub_client_event send_failed i ds payload cfg); raise e)
      (record d { multi = m })
report_one i ds payload cfg (panic, m) d = (panic, record d { multi = m })

module _ {W : Type 0} (nacl : Nacl W) (codec : Codec) (secret : Bytes) (signing : Signing W)
    (net : Net W) (process_dests : List Bytes → Action W (List Bytes))
    (resolve : List Bytes → Action W (List Bytes)) where
  -- From the resolved destinations and the payload on.
  abbrev pub send_and_report :
      ℤ → List Bytes → Payload → SendConfig → Action (Dispatch W) (Emitter Message)
  send_and_report i ds payload cfg d =
      report_one i ds payload cfg
        (send_with_client nacl codec secret signing net process_dests i ds payload
          (not cfg.unencrypted) cfg.max_holding_seconds d.multi)
        d

  abbrev pub send_by_found :
      Option (Client W)
      → ℤ
      → List Bytes
      → Content
      → SendConfig
      → W
      → Action (Dispatch W) (Emitter Message)
  send_by_found none i dests content cfg w = raise nil_client
  send_by_found (some c) i dests content cfg w =
      let (resolved, w') = resolve dests w in
      do
        ds ← lift resolved
        payload ← lift (new_message_payload nacl codec content cfg.message_id cfg.no_reply w').0
        emit_event (sub_client_event send i ds payload cfg)
        send_and_report i ds payload cfg

  -- `SendWithClient`; it returns the channel for the reply.
  pub send_by : ℤ → List Bytes → Content → SendConfig → W → Action (Dispatch W) (Emitter Message)
  send_by i dests content cfg w d =
      send_by_found (get_client i d.multi.clients) i dests content cfg w d
