-- ===== src/MultiClient/Spread/Ends.antt =====
-- multiclient.go: `Send` returns a result, unless a send of one of its clients panics.
use nkn_sdk_go.Base.{
  ◌≡◌, refl, sym, subst, ◌∙◌, true, not, List, [], ◌∷◌, ◌++◌, suc, Option, none, some, ◌⊎◌, inl,
  inr,
}
use nkn_sdk_go.Base.Int.{ℤ}
use nkn_sdk_go.Base.Bytes.{Bytes}
use nkn_sdk_go.Errors.{Outcome, ok, err, panic}
use nkn_sdk_go.Action.{Action, continue, gets, modify, >>-step, ◌>>◌}
use nkn_sdk_go.Message.{Nacl, Codec, Payload}
use nkn_sdk_go.Client.State.{Client, Net, send, send_success, send_failed}
use nkn_sdk_go.Client.Outbound.{Signing}
use nkn_sdk_go.Client.Send.{SendConfig, send_event}
use nkn_sdk_go.MultiClient.Policy.{clients_by_policy}
use nkn_sdk_go.MultiClient.Sending.{
  MultiClient, SendResult, get_client, send_with_client, unique_client_ids,
}
use nkn_sdk_go.MultiClient.Spread.{
  Dispatch, sub_client_event, with_channel, result_from, emit_event, report_client, try_present,
  try_each, dispatch,
}
use nkn_sdk_go.MultiClient.Spread.Trials.{Trial}
use nkn_sdk_go.MultiClient.Spread.Tried.{called_with, emit_event-eq-ok}
use nkn_sdk_go.MultiClient.Spread.Report.{IsReported, dispatch-IsReported}

continue_panics {ℓ κ μ} :
    {S : Type ℓ} {A : Type κ} {B : Type μ} (r : Outcome A × S) (f : A → Action S B)
    → r.0 ≡ panic
    → (continue r f).0 ≡ panic
continue_panics (ok a, s) f h = cc
continue_panics (err e, s) f h = cc
continue_panics (panic, s) f h = refl

module _ {W : Type 0} (nacl : Nacl W) (codec : Codec) (secret : Bytes) (signing : Signing W)
    (net : Net W) (process_dests : List Bytes → Action W (List Bytes)) (ds : List Bytes)
    (payload : Payload) (cfg : SendConfig) where
  -- The send of a client panics.
  abbrev pub ClientPanics : Type 0
  ClientPanics =
      (i : ℤ) × (m : MultiClient W) × ((send_with_client nacl codec secret signing net process_dests
          i ds payload (not cfg.unencrypted) cfg.max_holding_seconds m).0
        ≡ panic)

  -- A step goes well and the callback stays, or it panics since a client does.
  abbrev GoesOn : Outcome (Unit {0}) × Dispatch W → Type 0
  GoesOn r =
      ((e : Dispatch W) × (r ≡ (ok tt, e)) × (e.events.has_callback ≡ true))
      ⊎ ((r.0 ≡ panic) × ClientPanics)

  report_client-GoesOn :
      (i : ℤ) (r : Outcome (Unit {0}) × MultiClient W) (d : Dispatch W)
      → d.events.has_callback ≡ true
      → (r.0 ≡ panic → ClientPanics)
      → GoesOn (report_client i ds payload cfg r (with_channel i payload cfg d))
  unfolding report_client
  report_client-GoesOn i (ok u, m) d cb why =
      let x = sub_client_event send_success i ds payload cfg in
      let c : Dispatch W = record (with_channel i payload cfg d) { multi = m } in
      let tally : Action (Dispatch W) (Unit {0}) = modify (λ d. record d { sent = suc d.sent }) in
      inl (
        record (called_with ds payload cfg x c) { sent = suc d.sent },
        >>-step (emit_event x) tally c (called_with ds payload cfg x c)
            (emit_event-eq-ok ds payload cfg x c cb),
        cb,
      )
  report_client-GoesOn i (err z, m) d cb why =
      let x = sub_client_event send_failed i ds payload cfg in
      let c : Dispatch W = record (with_channel i payload cfg d) { multi = m } in
      let tally : Action (Dispatch W) (Unit {0}) =
        modify (λ d. record d { errs = d.errs ++ z ∷ [] }) in
      inl (
        record (called_with ds payload cfg x c) { errs = d.errs ++ z ∷ [] },
        >>-step (emit_event x) tally c (called_with ds payload cfg x c)
            (emit_event-eq-ok ds payload cfg x c cb),
        cb,
      )
  report_client-GoesOn i (panic, m) d cb why = inr (refl, why refl)

  try_present-GoesOn :
      (o : Option (Client W)) (i : ℤ) (d : Dispatch W)
      → d.events.has_callback ≡ true
      → GoesOn (try_present nacl codec secret signing net process_dests o i ds payload cfg d)
  try_present-GoesOn none i d cb = inl (d, refl, cb)
  try_present-GoesOn (some c) i d cb = report_client-GoesOn i _ d cb (λ h. (i, d.multi, h))

  try_each-GoesOn :
      (is : List ℤ) (d : Dispatch W)
      → d.events.has_callback ≡ true
      → GoesOn (try_each nacl codec secret signing net process_dests is ds payload cfg d)
  unfolding try_each
  try_each-GoesOn [] d cb = inl (d, refl, cb)
  try_each-GoesOn (i ∷ is) d cb =
      let rest : Unit {0} → Action (Dispatch W) (Unit {0}) =
        λ u. try_each nacl codec secret signing net process_dests is ds payload cfg in
      elim (try_present-GoesOn (get_client i d.multi.clients) i d cb) [
        | inl (c, p, cb') ↦ subst (λ t. GoesOn (continue t rest)) (sym p) (try_each-GoesOn is c cb')
        | inr (p, why) ↦ inr (continue_panics _ rest p, why)
      ]

  -- On a multiclient whose OnMessageEvent has a callback, `Send` panics only if the send of a client does.
  -- Otherwise it returns a result, and has tried each client that the policy chose and that is there, once
  -- and in order. The callback got the event for the send and then one for each trial, with the client's
  -- number and whether it failed; if a reply is wanted, just the clients that were tried got the channel
  -- for it; and the result is the errors just if all have failed.
  pub dispatch_ends :
      (now : ℤ) (d : Dispatch W)
      → d.events.has_callback ≡ true
      → ((r : SendResult) × (e : Dispatch W) × (ts : List Trial) × (dispatch nacl codec secret
              signing net process_dests now ds payload cfg d
            ≡ (ok r, e))
          × IsReported nacl codec secret signing net process_dests ds payload cfg
              (unique_client_ids (clients_by_policy d.multi.policy now d.multi.clients))
              ts
              r
              d
              e)
        ⊎ (((dispatch nacl codec secret signing net process_dests now ds payload cfg d).0 ≡ panic)
            × ClientPanics)
  unfolding dispatch
  dispatch_ends now d cb =
      let ids = unique_client_ids (clients_by_policy d.multi.policy now d.multi.clients) in
      let x = send_event send ds payload cfg in
      let fresh : Dispatch W = record d { sent = 0; errs = [] } in
      let tries = try_each nacl codec secret signing net process_dests ids ds payload cfg in
      let last : Unit {0} → Action (Dispatch W) SendResult =
        λ u. gets (λ d. result_from d.sent d.errs) in
      let start : dispatch nacl codec secret signing net process_dests now ds payload cfg d
          ≡ continue (tries (called_with ds payload cfg x fresh)) last =
        >>-step (emit_event x) (tries >> last tt) fresh (called_with ds payload cfg x fresh)
          (emit_event-eq-ok ds payload cfg x fresh cb) in
      elim (try_each-GoesOn ids (called_with ds payload cfg x fresh) cb) [
        | inl (e, p, cb') ↦
            let ends = start ∙ (λ i. continue (p i) last) in
            let (ts, t) =
              dispatch-IsReported nacl codec secret signing net process_dests ds payload cfg now d e
                (result_from e.sent e.errs) cb ends in
            inl (result_from e.sent e.errs, e, ts, ends, t)
        | inr (p, why) ↦ inr ((λ i. (start i).0) ∙ continue_panics _ last p, why)
      ]
