-- ===== src/MultiClient/Direct/Ends.antt =====
-- multiclient.go: how `SendWithClient` ends.
use nkn_sdk_go.Base.{◌≡◌, false, not, List, [], ◌∷◌, ◌++◌, Option, none, some, ◌⊎◌}
use nkn_sdk_go.Base.Int.{ℤ}
use nkn_sdk_go.Base.Bytes.{Bytes}
use nkn_sdk_go.Errors.{Error, Outcome, ok, err, panic}
use nkn_sdk_go.Action.{Action}
use nkn_sdk_go.Channel.{Emitter, new_emitter}
use nkn_sdk_go.Message.{Nacl, Codec, Payload, Content, new_message_payload}
use nkn_sdk_go.Client.State.{Client, Net, Message, send}
use nkn_sdk_go.Client.Outbound.{Signing}
use nkn_sdk_go.Client.Send.{SendConfig}
use nkn_sdk_go.MultiClient.Sending.{MultiClient, send_with_client}
use nkn_sdk_go.MultiClient.Spread.{Dispatch, sub_client_event, with_channel}
use nkn_sdk_go.MultiClient.Spread.Tried.{trial_event}

module _ {W : Type 0} (nacl : Nacl W) (codec : Codec) (secret : Bytes) (signing : Signing W)
    (net : Net W) (process_dests : List Bytes → Action W (List Bytes))
    (resolve : List Bytes → Action W (List Bytes)) (i : ℤ) (dests : List Bytes) (content : Content)
    (cfg : SendConfig) (w : W) where
  abbrev make_payload : Outcome Payload
  make_payload =
      (new_message_payload nacl codec content cfg.message_id cfg.no_reply (resolve dests w).1).0

  abbrev send_it : List Bytes → Payload → Action (MultiClient W) (Unit {0})
  send_it ds payload =
      send_with_client nacl codec secret signing net process_dests i ds payload
        (not cfg.unencrypted) cfg.max_holding_seconds

  abbrev ended : Option Error → Outcome (Unit {0})
  ended none = ok tt
  ended (some x) = err x

  -- The client was there and has tried to send the payload to the destinations that were resolved, and
  -- has failed with the error, if there is one.
  pub record IsTriedBy (x : Option Error) (d e : Dispatch W) : Type 0 where
    pub ds : List Bytes
    pub payload : Payload
    pub resolved : (resolve dests w).0 ≡ ok ds
    pub made : make_payload ≡ ok payload
    pub sends : send_it ds payload d.multi ≡ (ended x, e.multi)
    pub events :
        e.events.called
        ≡ d.events.called
          ++ sub_client_event send i ds payload cfg ∷ trial_event ds payload cfg (i, x) ∷ []
    pub channels :
        (x ≡ none) × (e.response_channels ≡ (with_channel i payload cfg d).response_channels)
        ⊎ (¬ (x ≡ none)) × (e.response_channels ≡ d.response_channels)

  -- What holds of the result and the state that `SendWithClient` leaves behind.
  abbrev pub IsReturned : Dispatch W → Outcome (Emitter Message) × Dispatch W → Type 0
  IsReturned d (ok channel, e) = (channel ≡ new_emitter 1 false) × IsTriedBy none d e
  IsReturned d (err x, e) = (e ≡ d) ⊎ IsTriedBy (some x) d e
  IsReturned d (panic, e) =
      ((resolve dests w).0 ≡ panic)
      ⊎ ((make_payload ≡ panic)
          ⊎ ((ds : List Bytes) × (payload : Payload) × ((send_it ds payload d.multi).0 ≡ panic)))
