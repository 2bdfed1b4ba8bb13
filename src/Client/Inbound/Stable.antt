-- ===== src/Client/Inbound/Stable.antt =====
-- client.go: what the handling of an inbound message changes of a client.
use nkn_sdk_go.Base.{◌≡◌, refl, Option, some, none, if◌then◌else◌, arith}
use nkn_sdk_go.Base.Bytes.{Bytes, lookup}
use nkn_sdk_go.Errors.{Outcome, ok, err, panic}
use nkn_sdk_go.Action.Keeps.{Keeps, continue-Keeps, >>=-Keeps, lift>>=-Keeps, if-Keeps, if-result}
use nkn_sdk_go.Channel.{Emitter, receive}
use nkn_sdk_go.Message.{Nacl, Codec, Payload, is_nil}
use nkn_sdk_go.Client.Keys.{Keys}
use nkn_sdk_go.Client.State.{Client, Message, MessageEvent, received, received_reply}
use nkn_sdk_go.Client.Inbound.{
  Inbox, InboundMessage, open_envelope, data_of, emit, sent, remove, event_of, message_of,
  deliver_to, deliver_reply, deliver_message, deliver, handle_inbound,
}

-- It does not matter for `P` what keys a client knows and what its channels for messages and events hold.
pub record IsStable {W : Type 0} (P : Client W → Type 0) : Type 0 where
  pub keys_kept : (c : Client W) (k : Keys W) → P c → P (record c { keys = k })
  pub messages_kept :
      (c : Client W) (e : Emitter Message)
      → e.closed ≡ c.on_message.closed
      → P c
      → P (record c { on_message = e })
  pub events_kept :
      (c : Client W) (e : Emitter MessageEvent)
      → e.closed ≡ c.on_message_event.closed
      → P c
      → P (record c { on_message_event = e })

receive-closed {ℓ} :
    {A : Type ℓ} (c d : Emitter A) (x : A) → receive c x ≡ ok d → d.closed ≡ c.closed
unfolding receive
receive-closed c d x h = ground (arith, h)

module _ {W : Type 0} (nacl : Nacl W) (codec : Codec) (secret : Bytes) {P : Client W → Type 0}
    (stable : IsStable P) where
  -- `P` of the client of an inbox.
  abbrev pub OfInbox : Inbox W → Type 0
  OfInbox b = P b.client

  sent-Keeps {ℓ} :
      {A : Type ℓ} (o : Outcome (Emitter A)) (f : Emitter A → Inbox W) (b : Inbox W)
      → ((e : Emitter A) → o ≡ ok e → P (f e).client)
      → P b.client
      → P (sent nacl codec secret o f b).1.client
  sent-Keeps (ok e) f b g h = g e refl
  sent-Keeps (err x) f b g h = h
  sent-Keeps panic f b g h = h

  open_envelope-Keeps : (m : InboundMessage) → Keeps OfInbox (open_envelope nacl codec secret m)
  unfolding open_envelope
  open_envelope-Keeps m b h =
      if-result OfInbox m.envelope.encrypted _ _ (stable.keys_kept b.client _ h)
        (if-result OfInbox b.allow_unencrypted _ _ h h)

  emit-Keeps : (x : MessageEvent) → Keeps OfInbox (emit nacl codec secret x)
  unfolding emit
  emit-Keeps x b h =
      sent-Keeps (receive b.client.on_message_event x) _ b
        (λ e k. stable.events_kept b.client e (receive-closed b.client.on_message_event e x k) h) h

  deliver_to-Keeps :
      (o : Option (Emitter Message)) (m : InboundMessage) (p : Payload) (content : Bytes)
      → Keeps OfInbox (deliver_to nacl codec secret o m p content)
  unfolding deliver_to
  deliver_to-Keeps none m p content b h = h
  deliver_to-Keeps (some channel) m p content b h =
      let b' : Inbox W = record b { waiting = remove p.reply_to_id b.waiting } in
      >>=-Keeps OfInbox
        (emit nacl codec secret (event_of nacl codec secret received_reply m p content)) _
        (emit-Keeps _)
        (λ u.
          lift>>=-Keeps OfInbox (receive channel (message_of nacl codec secret m p content)) _
            λ c v n. n)
        b' h

  put-Keeps :
      (x : Message)
      → Keeps OfInbox (λ b.
        if b.client.is_closed
        then (ok tt, b)
        else sent nacl codec secret
            (receive b.client.on_message x)
            (λ e. record b { client = record b.client { on_message = e } })
            b)
  put-Keeps x b h = if-result OfInbox b.client.is_closed _ _ h (
      sent-Keeps (receive b.client.on_message x) _ b
        (λ e k. stable.messages_kept b.client e (receive-closed b.client.on_message e x k) h) h)

  deliver-Keeps :
      (m : InboundMessage) (p : Payload) (content : Bytes)
      → Keeps OfInbox (deliver nacl codec secret m p content)
  unfolding deliver deliver_reply deliver_message
  deliver-Keeps m p content =
      if-Keeps OfInbox (is_nil p.reply_to_id) _ _
        (>>=-Keeps OfInbox
          (emit nacl codec secret (event_of nacl codec secret received m p content)) _
          (emit-Keeps _) λ u. put-Keeps (message_of nacl codec secret m p content))
        (λ b h.
          let r = deliver_to nacl codec secret (lookup p.reply_to_id b.waiting) m p content b in
          continue-Keeps OfInbox r.0 r.1 _ (deliver_to-Keeps _ m p content b h) λ u t k. k)

  -- Whatever an inbound message holds, and also when its handling fails or panics.
  pub handle_inbound-Keeps :
      (m : InboundMessage) → Keeps OfInbox (handle_inbound nacl codec secret m)
  unfolding handle_inbound
  handle_inbound-Keeps m b h = if-result OfInbox b.client.is_closed _ _ h (
      >>=-Keeps OfInbox (open_envelope nacl codec secret m) _ (open_envelope-Keeps m)
        (λ raw. lift>>=-Keeps OfInbox (codec.unmarshal_payload raw) _ λ p.
          lift>>=-Keeps OfInbox (data_of nacl codec secret p) _
            λ content. deliver-Keeps m p content)
        b h)
