-- ===== src/MultiClient/Spread/Tried.antt =====
-- multiclient.go: what `Send` changes for one client, and for one after the other.
use nkn_sdk_go.Base.{
  suc, ◌+◌, ◌≡◌, refl, sym, ap, subst, ◌∙◌, Bool, true, false, List, [], ◌∷◌, ◌++◌, map, append-nil,
  Option, none, some, if◌then◌else◌, arith,
}
use nkn_sdk_go.Base.Int.{ℤ}
use nkn_sdk_go.Base.Bytes.{Bytes}
use nkn_sdk_go.Errors.{Error, Outcome, ok, err, panic}
use nkn_sdk_go.Action.{Action, modify, >>-step}
use nkn_sdk_go.Channel.{receive, try_send}
use nkn_sdk_go.Message.{Payload}
use nkn_sdk_go.Client.State.{MessageEvent, send_success, send_failed}
use nkn_sdk_go.Client.Send.{SendConfig}
use nkn_sdk_go.MultiClient.Sending.{MultiClient}
use nkn_sdk_go.MultiClient.Sending.Trace.{ended}
use nkn_sdk_go.MultiClient.Spread.{
  Dispatch, sub_client_event, with_channel, emitted, emit_event, report_client,
}
use nkn_sdk_go.MultiClient.Spread.Trials.{
  is_present, present_ids, present_ids-cong, Trial, errors_of, sent_count, extended,
  errors_of-append, sent_count-append,
}

module _ (ds : List Bytes) (payload : Payload) (cfg : SendConfig) where
  -- The event of a trial.
  abbrev pub trial_event : Trial → MessageEvent
  trial_event (i, none) = sub_client_event send_success i ds payload cfg
  trial_event (i, some e) = sub_client_event send_failed i ds payload cfg

  -- The entries for the reply to a message.
  abbrev pub channels_of : Bool → List Trial → List (ℤ × Bytes)
  channels_of true ts = []
  channels_of false ts = map (λ t. (t.0, payload.message_id)) ts

  pub one_channel :
      (b : Bool) (i : ℤ) (x : Option Error) (xs : List (ℤ × Bytes))
      → (if b then xs else xs ++ (i, payload.message_id) ∷ []) ≡ xs ++ channels_of b ((i, x) ∷ [])
  one_channel true i x xs = sym (append-nil xs)
  one_channel false i x xs = refl

  pub channels_of-append :
      (b : Bool) (x : Trial) (ts : List Trial)
      → channels_of b (x ∷ []) ++ channels_of b ts ≡ channels_of b (x ∷ ts)
  channels_of-append true x ts = refl
  channels_of-append false x ts = refl

  pub no_channel : (b : Bool) (xs : List (ℤ × Bytes)) → xs ≡ xs ++ channels_of b []
  no_channel true xs = sym (append-nil xs)
  no_channel false xs = sym (append-nil xs)

module _ {W : Type 0} (ds : List Bytes) (payload : Payload) (cfg : SendConfig) where
  -- From `d` to `e`, the clients of `is` that are there were tried, in order; each trial has its event
  -- and, where a reply is wanted, the channel for it.
  pub record AreTried (is : List ℤ) (ts : List Trial) (d e : Dispatch W) : Type 0 where
    pub order : map (λ t. t.0) ts ≡ present_ids d.multi.clients is
    pub events : e.events.called ≡ d.events.called ++ map (trial_event ds payload cfg) ts
    pub channels :
        e.response_channels ≡ d.response_channels ++ channels_of ds payload cfg cfg.no_reply ts
    pub count : e.sent ≡ d.sent + sent_count ts
    pub errors : e.errs ≡ d.errs ++ errors_of ts

  -- What one client changes.
  pub record IsTried (i : ℤ) (x : Option Error) (d e : Dispatch W) : Type 0 where
    same_clients : (j : ℤ) → is_present j e.multi.clients ≡ is_present j d.multi.clients
    pub callback : e.events.has_callback ≡ true
    event : e.events.called ≡ d.events.called ++ trial_event ds payload cfg (i, x) ∷ []
    channel :
        e.response_channels
        ≡ d.response_channels ++ channels_of ds payload cfg cfg.no_reply ((i, x) ∷ [])
    one_count : e.sent ≡ d.sent + sent_count ((i, x) ∷ [])
    one_error : e.errs ≡ d.errs ++ errors_of ((i, x) ∷ [])

  -- `emit_event` with a callback.
  abbrev pub called_with : MessageEvent → Dispatch W → Dispatch W
  called_with x d = record d { events = record d.events { called = d.events.called ++ x ∷ [] } }

  pub emit_event-eq-ok :
      (x : MessageEvent) (d : Dispatch W)
      → d.events.has_callback ≡ true
      → emit_event x d ≡ (ok tt, called_with x d)
  unfolding receive
  emit_event-eq-ok x d cb i =
      emitted
        (if cb i
          then ok (record d.events { called = d.events.called ++ x ∷ [] })
          else try_send d.events x)
        d

  pub report_client-IsTried :
      (i : ℤ) (r : Outcome (Unit {0}) × MultiClient W) (d e : Dispatch W)
      → d.events.has_callback ≡ true
      → ((j : ℤ) → is_present j r.1.clients ≡ is_present j d.multi.clients)
      → report_client i ds payload cfg r (with_channel i payload cfg d) ≡ (ok tt, e)
      → (x : Option Error) × IsTried i x d e × (r ≡ (ended x, e.multi))
  unfolding report_client
  report_client-IsTried i (ok u, m) d e cb same h =
      let x = sub_client_event send_success i ds payload cfg in
      let c : Dispatch W = record (with_channel i payload cfg d) { multi = m } in
      let tally : Action (Dispatch W) (Unit {0}) = modify (λ d. record d { sent = suc d.sent }) in
      let done : (ok tt, record (called_with x c) { sent = suc d.sent }) ≡ (ok tt, e) =
        sym (>>-step (emit_event x) tally c (called_with x c) (emit_event-eq-ok x c cb)) ∙ h in
      (
        none,
        subst (λ t. IsTried i none d t) (λ j. (done j).1)
            (record {
              same_clients = same;
              callback = cb;
              event = refl;
              channel = one_channel ds payload cfg cfg.no_reply i none d.response_channels;
              one_count = omega arith;
              one_error = sym (append-nil d.errs);
            }),
        (λ j. (ok u, (done j).1.multi)),
      )
  report_client-IsTried i (err z, m) d e cb same h =
      let x = sub_client_event send_failed i ds payload cfg in
      let c : Dispatch W = record (with_channel i payload cfg d) { multi = m } in
      let tally : Action (Dispatch W) (Unit {0}) =
        modify (λ d. record d { errs = d.errs ++ z ∷ [] }) in
      let done : (ok tt, record (called_with x c) { errs = d.errs ++ z ∷ [] }) ≡ (ok tt, e) =
        sym (>>-step (emit_event x) tally c (called_with x c) (emit_event-eq-ok x c cb)) ∙ h in
      (
        some z,
        subst (λ t. IsTried i (some z) d t) (λ j. (done j).1)
            (record {
              same_clients = same;
              callback = cb;
              event = refl;
              channel = one_channel ds payload cfg cfg.no_reply i (some z) d.response_channels;
              one_count = omega arith;
              one_error = refl;
            }),
        (λ j. (err z, (done j).1.multi)),
      )
  report_client-IsTried i (panic, m) d e cb same h = cc

  -- The first client, and then the others.
  pub AreTried-cons :
      (i : ℤ) (is : List ℤ) (x : Option Error) (ts : List Trial) (d c e : Dispatch W)
      → is_present i d.multi.clients ≡ true
      → IsTried i x d c
      → AreTried is ts c e
      → AreTried (i ∷ is) ((i, x) ∷ ts) d e
  AreTried-cons i is x ts d c e here one rest = record {
    order =
        ap (◌∷◌ i)
          (rest.order ∙ present_ids-cong d.multi.clients c.multi.clients is one.same_clients)
        ∙ sym (
            ap
              (λ b.
                if b then i ∷ present_ids d.multi.clients is else present_ids d.multi.clients is)
              here);
    events =
        extended d.events.called (trial_event ds payload cfg (i, x) ∷ [])
          (map (trial_event ds payload cfg) ts) _ one.event rest.events refl;
    channels =
        extended d.response_channels _ _ _ one.channel rest.channels
          (channels_of-append ds payload cfg cfg.no_reply (i, x) ts);
    count = omega (arith, one.one_count, rest.count, sent_count-append (i, x) ts);
    errors = extended d.errs _ _ _ one.one_error rest.errors (errors_of-append (i, x) ts);
  }

  pub AreTried-skip :
      (i : ℤ) (is : List ℤ) (ts : List Trial) (d e : Dispatch W)
      → is_present i d.multi.clients ≡ false
      → AreTried is ts d e
      → AreTried (i ∷ is) ts d e
  AreTried-skip i is ts d e here rest = record {
    order =
        rest.order
        ∙ sym (
            ap
              (λ b.
                if b then i ∷ present_ids d.multi.clients is else present_ids d.multi.clients is)
              here);
    events = rest.events;
    channels = rest.channels;
    count = rest.count;
    errors = rest.errors;
  }
