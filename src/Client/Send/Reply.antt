-- ===== src/Client/Send/Reply.antt =====
-- client.go: what `Send` leaves behind: the messages written, the channel that waits for the reply, and
-- what happens on a closed client.
use nkn_sdk_go.Base.{
  ◌≡◌, refl, sym, ap, ◌∙◌, subst, true, false, not, List, none, some, Bool-cases, inl, inr,
  if◌then◌else◌, arith,
}
use nkn_sdk_go.Base.Bytes.{Bytes, lookup, lookup-insert, bytes_eq_refl}
use nkn_sdk_go.Errors.{Outcome, ok, err, panic}
use nkn_sdk_go.Action.{Action, >>=-eq-ok}
use nkn_sdk_go.Channel.{new_emitter}
use nkn_sdk_go.Message.{Nacl, Codec, Payload, Content}
use nkn_sdk_go.Client.State.{Client, Net, send_success, send_failed, send, outside}
use nkn_sdk_go.Client.State.Invariant.{IsValid}
use nkn_sdk_go.Client.Outbound.{Signing}
use nkn_sdk_go.Client.Batch.{send_timeout}
use nkn_sdk_go.Client.Inbound.{Inbox, InboundMessage, emit, deliver_reply, deliver_to}
use nkn_sdk_go.Client.Inbound.Delivery.{emit_keeps, emit-closed, deliver_reply_waiting}
use nkn_sdk_go.Client.Send.{
  SendConfig, send_event, add_channel, on_client, payload_of, await_reply, report, send_reported,
  send_message,
}

module _ {W : Type 0} (nacl : Nacl W) (codec : Codec) (secret : Bytes) (signing : Signing W)
    (net : Net W) (process_dests : List Bytes → Action W (List Bytes))
    (resolve : List Bytes → Action W (List Bytes)) where
  -- `Send` on a closed client without a callback for events panics whenever the destinations resolve and
  -- there is a payload: the event is sent before anything tests that the client is open, and the channel
  -- for events is closed.
  pub send_closed_panics :
      (dests ds : List Bytes) (content : Content) (cfg : SendConfig) (b : Inbox W) (p : Payload)
      (w v : W)
      → IsValid b.client
      → b.client.is_closed ≡ true
      → b.client.on_message_event.has_callback ≡ false
      → resolve dests b.client.keys.world ≡ (ok ds, w)
      → payload_of nacl codec secret signing net process_dests resolve content cfg w ≡ (ok p, v)
      → (send_message nacl codec secret signing net process_dests resolve dests content cfg b).0
        ≡ panic
  unfolding send_message
  send_closed_panics dests ds content cfg b p w v valid c cb r q =
      let late : Inbox W = record b {
        client = record b.client { keys = record b.client.keys { world = v } };
      } in
      let stop =
        emit-closed nacl codec secret (send_event send ds p cfg) late (valid.event_closed ∙ c) cb in
      ground (arith, r, q, stop)

  -- What `Send` leaves behind: with the destinations that were resolved and the payload that was made of
  -- the content, the event of the send was given to the client in the state after these calls; the client
  -- after it has sent the payload to the destinations, all of its batches written; and a reply to it, if
  -- one is wanted and its id was not in use, goes to the new channel that `Send` returns.
  pub record IsSent (dests : List Bytes) (content : Content) (cfg : SendConfig) (b b' : Inbox W)
      : Type 0 where
    pub found : List Bytes
    pub payload : Payload
    start : Inbox W
    pub client' : Client W
    pub resolved : (resolve dests b.client.keys.world).0 ≡ ok found
    pub made :
        payload_of nacl codec secret signing net process_dests resolve content cfg
          (resolve dests b.client.keys.world).1
        ≡ (
          ok payload,
          (payload_of nacl codec secret signing net process_dests resolve content cfg
              (resolve dests b.client.keys.world).1).1,
        )
    pub announced :
        emit nacl codec secret (send_event send found payload cfg) (record b {
          client = record b.client {
            keys = record b.client.keys {
              world =
                  (payload_of nacl codec secret signing net process_dests resolve content cfg
                    (resolve dests b.client.keys.world).1).1;
            };
          };
        })
        ≡ (ok tt, start)
    pub written :
        send_timeout nacl codec secret signing net process_dests found payload
          (not cfg.unencrypted)
          cfg.max_holding_seconds
          start.client
        ≡ (ok tt, client')
    pub waits : b'.waiting ≡ (
        if cfg.no_reply
        then b.waiting
        else add_channel payload.message_id (new_emitter 1 false) b.waiting)
    pub answered :
        cfg.no_reply ≡ false
        → lookup payload.message_id b.waiting ≡ none
        → (m : InboundMessage) (r : Payload) (content : Bytes) → r.reply_to_id ≡ payload.message_id
        → deliver_reply nacl codec secret m r content b'
          ≡ deliver_to nacl codec secret (some (new_emitter 1 false)) m r content b'

  waits-answered :
      (cfg : SendConfig) (p : Payload) (b b' : Inbox W)
      → b'.waiting ≡ (
          if cfg.no_reply
          then b.waiting
          else add_channel p.message_id (new_emitter 1 false) b.waiting)
      → cfg.no_reply ≡ false
      → lookup p.message_id b.waiting ≡ none
      → lookup p.message_id b'.waiting ≡ some (new_emitter 1 false)
  unfolding add_channel
  waits-answered cfg p b b' w n l = ground (
    arith,
    w,
    n,
    l,
    lookup-insert p.message_id p.message_id (new_emitter 1 false) b.waiting,
    bytes_eq_refl p.message_id,
  )

  answered-deliver :
      (id : Bytes) (b' : Inbox W) (m : InboundMessage) (r : Payload) (content : Bytes)
      → lookup id b'.waiting ≡ some (new_emitter 1 false)
      → r.reply_to_id ≡ id
      → deliver_reply nacl codec secret m r content b'
        ≡ deliver_to nacl codec secret (some (new_emitter 1 false)) m r content b'
  answered-deliver id b' m r content l e =
      deliver_reply_waiting nacl codec secret b' m r content (ap (λ k. lookup k b'.waiting) e ∙ l)

  await_reply_waiting :
      (p : Payload) (cfg : SendConfig) (b b' : Inbox W)
      → await_reply nacl codec secret signing net process_dests resolve p cfg b ≡ (ok tt, b')
      → b'.waiting ≡ (
          if cfg.no_reply
          then b.waiting
          else add_channel p.message_id (new_emitter 1 false) b.waiting)
  unfolding await_reply
  await_reply_waiting p cfg b b' h = elim (Bool-cases cfg.no_reply) [
    | inl e ↦ ground (arith, e, h)
    | inr e ↦ ground (arith, e, h)
  ]

  -- What follows a call of `send` that has succeeded.
  report-eq-ok :
      (ds : List Bytes) (p : Payload) (cfg : SendConfig) (r : Outcome (Unit {0}) × Client W)
      (b b' : Inbox W)
      → report nacl codec secret signing net process_dests resolve ds p cfg r b ≡ (ok tt, b')
      → (c : Client W) × (r ≡ (ok tt, c))
        × (b'.waiting ≡ (
            if cfg.no_reply
            then b.waiting
            else add_channel p.message_id (new_emitter 1 false) b.waiting))
  unfolding report
  report-eq-ok ds p cfg (ok tt, c) b b' h =
      let start : Inbox W = record b { client = c } in
      let (u, mid, h1, h2) =
        >>=-eq-ok (emit nacl codec secret (send_event send_success ds p cfg)) _ start h in
      let same : mid.waiting ≡ b.waiting =
        emit_keeps nacl codec secret (send_event send_success ds p cfg) (λ w m. w) start mid h1 in
      (
        c,
        refl,
        subst
            (λ w.
              b'.waiting
              ≡ (if cfg.no_reply then w else add_channel p.message_id (new_emitter 1 false) w))
            same (await_reply_waiting p cfg mid b' h2),
      )
  report-eq-ok ds p cfg (err e, c) b b' h =
      let start : Inbox W = record b { client = c } in
      let (u, mid, h1, h2) =
        >>=-eq-ok (emit nacl codec secret (send_event send_failed ds p cfg)) _ start h in
      cc
  report-eq-ok ds p cfg (panic, c) b b' h = cc

  pub send_message-sends :
      (dests : List Bytes) (content : Content) (cfg : SendConfig) (b b' : Inbox W)
      → send_message nacl codec secret signing net process_dests resolve dests content cfg b
        ≡ (ok tt, b')
      → IsSent dests content cfg b b'
  unfolding send_message send_reported
  send_message-sends dests content cfg b b' h =
      let resolving =
        on_client nacl codec secret signing net process_dests resolve (outside (resolve dests)) in
      let make = payload_of nacl codec secret signing net process_dests resolve content cfg in
      let making = on_client nacl codec secret signing net process_dests resolve (outside make) in
      let (ds, b1, h1, r1) = >>=-eq-ok resolving _ b h in
      let (p, b2, h2, r2) = >>=-eq-ok making _ b1 r1 in
      let (u, b3, h3, r3) = >>=-eq-ok (emit nacl codec secret (send_event send ds p cfg)) _ b2 r2 in
      let same : b3.waiting ≡ b.waiting =
        emit_keeps nacl codec secret (send_event send ds p cfg) (λ w m. w) b2 b3 h3
        ∙ (λ i. (sym h2 i).1.waiting)
        ∙ (λ i. (sym h1 i).1.waiting) in
      let (c, written, waits) = report-eq-ok ds p cfg _ b3 b' r3 in
      let waits' =
        subst
          (λ w.
            b'.waiting
            ≡ (if cfg.no_reply then w else add_channel p.message_id (new_emitter 1 false) w))
          same waits in
      let both : making (resolving b).1 ≡ (ok p, b2) = ap making (λ i. (h1 i).1) ∙ h2 in
      record {
        found = ds;
        payload = p;
        start = b3;
        client' = c;
        resolved = λ i. (h1 i).0;
        made = λ i. ((both i).0, (make (resolve dests b.client.keys.world).1).1);
        announced = ap (emit nacl codec secret (send_event send ds p cfg)) (λ i. (both i).1) ∙ h3;
        written = written;
        waits = waits';
        answered = λ n l m r content e.
            answered-deliver p.message_id b' m r content (waits-answered cfg p b b' waits' n l) e;
      }
