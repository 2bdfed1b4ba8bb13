-- ===== src/MultiClient/Spread/Begins.antt =====
-- multiclient.go: `Send`, from its arguments on.
use nkn_sdk_go.Base.{◌≡◌, List, ◌⊎◌}
use nkn_sdk_go.Base.Int.{ℤ}
use nkn_sdk_go.Base.Bytes.{Bytes}
use nkn_sdk_go.Errors.{Outcome, ok, err, panic}
use nkn_sdk_go.Action.{Action}
use nkn_sdk_go.Message.{Nacl, Codec, Payload, Content}
use nkn_sdk_go.Client.State.{Net}
use nkn_sdk_go.Client.Outbound.{Signing}
use nkn_sdk_go.Client.Send.{SendConfig, payload_of}
use nkn_sdk_go.MultiClient.Policy.{clients_by_policy}
use nkn_sdk_go.MultiClient.Sending.{SendResult, unique_client_ids}
use nkn_sdk_go.MultiClient.Spread.{Dispatch}
use nkn_sdk_go.MultiClient.Spread.Trials.{Trial}
use nkn_sdk_go.MultiClient.Spread.Report.{IsReported}
use nkn_sdk_go.MultiClient.Spread.Ends.{ClientPanics}

module _ {W : Type 0} (nacl : Nacl W) (codec : Codec) (secret : Bytes) (signing : Signing W)
    (net : Net W) (process_dests : List Bytes → Action W (List Bytes))
    (resolve : List Bytes → Action W (List Bytes)) (now : ℤ) (dests : List Bytes)
    (content : Content) (cfg : SendConfig) (w : W) where
  abbrev make_payload : Outcome Payload
  make_payload =
      (payload_of nacl codec secret signing net process_dests resolve content cfg
        (resolve dests w).1).0

  -- How `Send` ends.
  abbrev pub HasEnded : Dispatch W → Outcome SendResult × Dispatch W → Type 0
  HasEnded d (ok r, e) =
      (ds : List Bytes) × (payload : Payload) × (ts : List Trial) × ((resolve dests w).0 ≡ ok ds)
      × (make_payload ≡ ok payload)
      × IsReported nacl codec secret signing net process_dests ds payload cfg
          (unique_client_ids (clients_by_policy d.multi.policy now d.multi.clients)) ts r d e
  HasEnded d (err x, e) = (((resolve dests w).0 ≡ err x) ⊎ (make_payload ≡ err x)) × (e ≡ d)
  HasEnded d (panic, e) =
      ((resolve dests w).0 ≡ panic)
      ⊎ ((make_payload ≡ panic)
          ⊎ ((ds : List Bytes) × (payload : Payload) × ClientPanics nacl codec secret signing net
                process_dests ds payload cfg))
