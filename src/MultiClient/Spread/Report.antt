-- ===== src/MultiClient/Spread/Report.antt =====
-- multiclient.go: what `Send` reports of each client, and when it returns an error.
use nkn_sdk_go.Base.{
  ◌≡◌, refl, sym, ap, subst, ◌∙◌, Bool, true, not, List, [], ◌∷◌, ◌++◌, map, append_assoc,
  append-nil, Option, none, some, arith,
}
use nkn_sdk_go.Base.Int.{ℤ}
use nkn_sdk_go.Base.Bytes.{Bytes}
use nkn_sdk_go.Errors.{ok, ok-injective}
use nkn_sdk_go.Action.{Action, gets, >>-step, ◌>>◌, >>=-eq-ok}
use nkn_sdk_go.Message.{Nacl, Codec, Payload}
use nkn_sdk_go.Client.State.{Client, Net, send}
use nkn_sdk_go.Client.Outbound.{Signing}
use nkn_sdk_go.Client.Inbound.{contains}
use nkn_sdk_go.Client.Send.{SendConfig, send_event}
use nkn_sdk_go.MultiClient.Policy.{clients_by_policy}
use nkn_sdk_go.MultiClient.Sending.{
  MultiClient, SendResult, get_client, send_with_found, send_with_client, unique_client_ids,
}
use nkn_sdk_go.MultiClient.Sending.Trace.{Sends}
use nkn_sdk_go.MultiClient.Spread.{
  Dispatch, result_from, emit_event, try_present, try_each, dispatch,
}
use nkn_sdk_go.MultiClient.Spread.Trials.{
  is_present, present_ids, is_present-set_client, Trial, errors_of, sent_count, verdict,
  result_from-all_failed,
}
use nkn_sdk_go.MultiClient.Spread.Tried.{
  trial_event, channels_of, no_channel, AreTried, called_with, emit_event-eq-ok,
  report_client-IsTried, AreTried-cons, AreTried-skip,
}

module _ {W : Type 0} (nacl : Nacl W) (codec : Codec) (secret : Bytes) (signing : Signing W)
    (net : Net W) (process_dests : List Bytes → Action W (List Bytes)) (ds : List Bytes)
    (payload : Payload) (cfg : SendConfig) where
  send_with_found-is_present :
      (o : Option (Client W)) (i j : ℤ) (encrypted : Bool) (holding : ℤ) (m : MultiClient W)
      → get_client i m.clients ≡ o
      → is_present j
          (send_with_found nacl codec secret signing net process_dests o i ds payload encrypted
            holding m).1.clients
        ≡ is_present j m.clients
  send_with_found-is_present none i j encrypted holding m h = refl
  send_with_found-is_present (some c) i j encrypted holding m h =
      is_present-set_client i j _ m.clients (ap contains h)

  send_with_client-is_present :
      (i j : ℤ) (encrypted : Bool) (holding : ℤ) (m : MultiClient W)
      → is_present j
          (send_with_client nacl codec secret signing net process_dests i ds payload encrypted
            holding m).1.clients
        ≡ is_present j m.clients
  unfolding send_with_client
  send_with_client-is_present i j encrypted holding m =
      send_with_found-is_present (get_client i m.clients) i j encrypted holding m refl

  -- The calls of the trials.
  abbrev Calls : List Trial → Dispatch W → Dispatch W → Type 0
  Calls ts d e =
      Sends nacl codec secret signing net process_dests ds payload (not cfg.unencrypted)
        cfg.max_holding_seconds ts d.multi e.multi

  tried :
      (i : ℤ) (is : List ℤ) (o : Option (Client W)) (d c e : Dispatch W)
      → d.events.has_callback ≡ true
      → get_client i d.multi.clients ≡ o
      → try_present nacl codec secret signing net process_dests o i ds payload cfg d ≡ (ok tt, c)
      → (c.events.has_callback ≡ true
          → (ts : List Trial) × AreTried ds payload cfg is ts c e × Calls ts c e)
      → (ts : List Trial) × AreTried ds payload cfg (i ∷ is) ts d e × Calls ts d e
  tried i is none d c e cb eq h rest =
      let same : d ≡ c = λ j. (h j).1 in
      let (ts, r, calls) =
        rest (subst (λ (t : Dispatch W). t.events.has_callback ≡ true) same cb) in
      (
        ts,
        AreTried-skip ds payload cfg i is ts d e (ap contains eq)
            (subst (λ t. AreTried ds payload cfg is ts t e) (sym same) r),
        subst (λ t. Calls ts t e) (sym same) calls,
      )
  tried i is (some client) d c e cb eq h rest =
      let (x, one, call) =
        report_client-IsTried ds payload cfg i _ d c cb
          (λ j.
            send_with_client-is_present i j (not cfg.unencrypted) cfg.max_holding_seconds d.multi)
          h in
      let (ts, r, calls) = rest one.callback in
      (
        (i, x) ∷ ts,
        AreTried-cons ds payload cfg i is x ts d c e (ap contains eq) one r,
        (c.multi, call, calls),
      )

  try_each-AreTried :
      (is : List ℤ) (d e : Dispatch W)
      → d.events.has_callback ≡ true
      → try_each nacl codec secret signing net process_dests is ds payload cfg d ≡ (ok tt, e)
      → (ts : List Trial) × AreTried ds payload cfg is ts d e × Calls ts d e
  unfolding try_each
  try_each-AreTried [] d e cb h = (
    [],
    subst (λ t. AreTried ds payload cfg [] [] d t) (λ j. (h j).1)
        (record {
          order = refl;
          events = sym (append-nil d.events.called);
          channels = no_channel ds payload cfg cfg.no_reply d.response_channels;
          count = omega arith;
          errors = sym (append-nil d.errs);
        }),
    (λ j. (h j).1.multi),
  )
  try_each-AreTried (i ∷ is) d e cb h =
      let (u, c, h1, h2) =
        >>=-eq-ok
          (try_present nacl codec secret signing net process_dests (get_client i d.multi.clients) i
            ds payload cfg)
          _ d h in
      tried i is (get_client i d.multi.clients) d c e cb refl h1
        (λ cb'. try_each-AreTried is c e cb' h2)

  -- What a `Send` with these trials has done.
  pub record IsReported (ids : List ℤ) (ts : List Trial) (r : SendResult) (d e : Dispatch W)
      : Type 0 where
    pub order : map (λ t. t.0) ts ≡ present_ids d.multi.clients ids
    pub events :
        e.events.called
        ≡ d.events.called ++ send_event send ds payload cfg ∷ map (trial_event ds payload cfg) ts
    pub channels :
        e.response_channels ≡ d.response_channels ++ channels_of ds payload cfg cfg.no_reply ts
    pub result : r ≡ verdict ts
    pub calls : Calls ts d e

  -- A `Send` that returns, on a multiclient whose OnMessageEvent has a callback, has tried each client that
  -- the policy chose and that is there, once and in order: each trial is the call of the client's send in the
  -- state that the one before left, with its outcome. The callback got the event for the send and
  -- then one for each trial, with the client's number and whether it failed; if a reply is wanted, just the
  -- clients that were tried got the channel for it; and the errors are returned just if all have failed.
  pub dispatch-IsReported :
      (now : ℤ) (d e : Dispatch W) (r : SendResult)
      → d.events.has_callback ≡ true
      → dispatch nacl codec secret signing net process_dests now ds payload cfg d ≡ (ok r, e)
      → (ts : List Trial) × IsReported
          (unique_client_ids (clients_by_policy d.multi.policy now d.multi.clients))
          ts
          r
          d
          e
  unfolding dispatch
  dispatch-IsReported now d e r cb h =
      let ids = unique_client_ids (clients_by_policy d.multi.policy now d.multi.clients) in
      let x = send_event send ds payload cfg in
      let fresh : Dispatch W = record d { sent = 0; errs = [] } in
      let tries = try_each nacl codec secret signing net process_dests ids ds payload cfg in
      let after : (tries >> gets (λ d. result_from d.sent d.errs))
            (called_with ds payload cfg x fresh)
          ≡ (ok r, e) =
        sym (
          >>-step (emit_event x) (tries >> gets (λ d. result_from d.sent d.errs)) fresh
            (called_with ds payload cfg x fresh) (emit_event-eq-ok ds payload cfg x fresh cb))
        ∙ h in
      let (u, c, h1, h2) =
        >>=-eq-ok tries (λ u. gets (λ d. result_from d.sent d.errs))
          (called_with ds payload cfg x fresh) after in
      let (ts, t, calls) = try_each-AreTried ids (called_with ds payload cfg x fresh) c cb h1 in
      let count : c.sent ≡ sent_count ts = omega (arith, t.count) in
      (
        ts,
        subst (λ v. IsReported ids ts r d v) (λ j. (h2 j).1)
            (record {
              order = t.order;
              events =
                  t.events
                  ∙ append_assoc d.events.called (x ∷ []) (map (trial_event ds payload cfg) ts);
              channels = t.channels;
              result =
                  sym (ok-injective (λ j. (h2 j).0))
                  ∙ (λ j. result_from (count j) (t.errors j))
                  ∙ result_from-all_failed ts (errors_of ts);
              calls = calls;
            }),
      )
