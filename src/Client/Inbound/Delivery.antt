-- ===== src/Client/Inbound/Delivery.antt =====
-- client.go: where an inbound message ends up.
use nkn_sdk_go.Base.{
  ◌≡◌, refl, sym, ap, ◌∙◌, subst, true, false, [], ◌∷◌, ◌++◌, Option, none, some, length, ltb,
  if◌then◌else◌, Bool-cases, inl, inr, arith,
}
use nkn_sdk_go.Base.Bytes.{Bytes, Dict, lookup, bytes_eq, bytes_eq_iff, bytes_eq_refl}
use nkn_sdk_go.Errors.{Outcome, ok, err, panic}
use nkn_sdk_go.Action.{>>=-eq-ok, >>-step, lift}
use nkn_sdk_go.Channel.{Emitter, receive}
use nkn_sdk_go.Channel.Fifo.{receive_open, receive_kept}
use nkn_sdk_go.Message.{Nacl, Codec, Payload}
use nkn_sdk_go.Client.State.{Message, MessageEvent, received, received_reply}
use nkn_sdk_go.Client.State.Invariant.{IsValid}
use nkn_sdk_go.Client.Inbound.{
  Inbox, InboundMessage, remove, emit, sent, deliver_to, message_of, event_of, deliver_reply,
  deliver_message,
}

pub lookup-remove {ℓ} :
    {V : Type ℓ} (k j : Bytes) (d : Dict V)
    → lookup j (remove k d) ≡ (if bytes_eq k j then none else lookup j d)
lookup-remove k j [] = elim (Bool-cases (bytes_eq k j)) [ inl e ↦ rw e refl | inr e ↦ rw e refl ]
lookup-remove k j ((i, v) ∷ d) =
    ground (arith, bytes_eq_iff k j, bytes_eq_iff i k, bytes_eq_iff i j, lookup-remove k j d)

module _ {W : Type 0} (nacl : Nacl W) (codec : Codec) (secret : Bytes) where
  sent_keeps :
      {A T : Type 0} (o : Outcome (Emitter A)) (f : Emitter A → Inbox W) (g : Inbox W → T)
      (b b' : Inbox W)
      → sent nacl codec secret o f b ≡ (ok tt, b')
      → ((e : Emitter A) → g (f e) ≡ g b)
      → g b' ≡ g b
  sent_keeps (ok e) f g b b' h k = ap g (sym (λ i. (h i).1)) ∙ k e
  sent_keeps (err x) f g b b' h k = cc
  sent_keeps panic f g b b' h k = cc

  pub emit_keeps :
      {T : Type 0} (x : MessageEvent) (g : Dict (Emitter Message) → Emitter Message → T)
      (b b' : Inbox W)
      → emit nacl codec secret x b ≡ (ok tt, b')
      → g b'.waiting b'.client.on_message ≡ g b.waiting b.client.on_message
  unfolding emit
  emit_keeps x g b b' h =
      sent_keeps (receive b.client.on_message_event x) _ (λ s. g s.waiting s.client.on_message) b b'
        h λ e. refl

  -- Without a callback, an event for a client that is closed panics.
  pub emit-closed :
      (x : MessageEvent) (b : Inbox W)
      → b.client.on_message_event.closed ≡ true
      → b.client.on_message_event.has_callback ≡ false
      → emit nacl codec secret x b ≡ (panic, b)
  unfolding emit receive
  emit-closed x b c cb = rw (cb, c) refl

  -- A reply goes to the channel that waits for it.
  pub deliver_reply_waiting :
      (b : Inbox W) (m : InboundMessage) (r : Payload) (content : Bytes) {c : Emitter Message}
      → lookup r.reply_to_id b.waiting ≡ some c
      → deliver_reply nacl codec secret m r content b
        ≡ deliver_to nacl codec secret (some c) m r content b
  unfolding deliver_reply
  deliver_reply_waiting b m r content l i = deliver_to nacl codec secret (l i) m r content b

  -- What a delivered reply leaves behind.
  abbrev pub IsAnswered : Bytes → Inbox W → Inbox W → Type 0
  IsAnswered id b b' =
      (lookup id b'.waiting ≡ none)
      × ((j : Bytes) → bytes_eq id j ≡ false → lookup j b'.waiting ≡ lookup j b.waiting)
      × (b'.client.on_message ≡ b.client.on_message)

  removed-IsAnswered :
      (id : Bytes) (b b' : Inbox W)
      → b'.waiting ≡ remove id b.waiting
      → b'.client.on_message ≡ b.client.on_message
      → IsAnswered id b b'
  removed-IsAnswered id b b' e k = (
    rw e (
        lookup-remove id id b.waiting
        ∙ ap (λ x. if x then none else lookup id b.waiting) (bytes_eq_refl id)),
    λ j n. rw e (lookup-remove id j b.waiting ∙ ap (λ x. if x then none else lookup j b.waiting) n),
    k,
  )

  deliver_to-IsAnswered :
      (o r : Option (Emitter Message)) (m : InboundMessage) (p : Payload) (content : Bytes)
      (b b' : Inbox W)
      → lookup p.reply_to_id b.waiting ≡ o
      → deliver_to nacl codec secret o m p content b ≡ (ok r, b')
      → IsAnswered p.reply_to_id b b'
  unfolding deliver_to
  deliver_to-IsAnswered none r m p content b b' e h =
      subst (IsAnswered p.reply_to_id b) (λ i. (h i).1) (e, (λ j n. refl), refl)
  deliver_to-IsAnswered (some c) r m p content b b' e h =
      let s1 : Inbox W = record b { waiting = remove p.reply_to_id b.waiting } in
      let (u, s2, e2, h2) =
        >>=-eq-ok (emit nacl codec secret (event_of nacl codec secret received_reply m p content)) _
          s1 h in
      let (c', s3, e3, h3) =
        >>=-eq-ok (lift (receive c (message_of nacl codec secret m p content))) _ s2 h2 in
      let same : s2 ≡ b' = (λ i. (e3 i).1) ∙ (λ i. (h3 i).1) in
      removed-IsAnswered p.reply_to_id b b'
        (ap (λ s. s.waiting) (sym same) ∙ emit_keeps _ (λ w o. w) s1 s2 e2)
        (ap (λ s. s.client.on_message) (sym same) ∙ emit_keeps _ (λ w o. o) s1 s2 e2)

  -- A reply that is delivered, or that nobody waits for, leaves nobody waiting for it, so that a second
  -- one is dropped; it changes nothing for other replies, and is not put with the ordinary messages.
  pub deliver_reply-IsAnswered :
      (m : InboundMessage) (p : Payload) (content : Bytes) (b b' : Inbox W)
      (r : Option (Emitter Message))
      → deliver_reply nacl codec secret m p content b ≡ (ok r, b')
      → IsAnswered p.reply_to_id b b'
  unfolding deliver_reply
  deliver_reply-IsAnswered m p content b b' r h =
      deliver_to-IsAnswered (lookup p.reply_to_id b.waiting) r m p content b b' refl h

  -- An ordinary message to an open client, whose channel has room and no callback, is kept behind the
  -- messages that wait there; nothing panics.
  deliver_message_kept :
      (m : InboundMessage) (p : Payload) (content : Bytes) (b : Inbox W)
      → b.client.is_closed ≡ false
      → IsValid b.client
      → b.client.on_message.has_callback ≡ false
      → ltb (length b.client.on_message.buffer) b.client.on_message.size ≡ true
      → (b' : Inbox W) × (deliver_message nacl codec secret m p content b ≡ (ok tt, b'))
        × (b'.client.on_message.buffer
            ≡ b.client.on_message.buffer ++ message_of nacl codec secret m p content ∷ [])
  unfolding deliver_message emit
  deliver_message_kept m p content b open_ v cb room =
      let (ev, e, still) =
        receive_open b.client.on_message_event (event_of nacl codec secret received m p content)
          (v.event_closed ∙ open_) in
      let kept =
        receive_kept b.client.on_message (message_of nacl codec secret m p content)
          (v.message_closed ∙ open_) cb room in
      let s1 : Inbox W = record b { client = record b.client { on_message_event = ev } } in
      let f1 : Emitter MessageEvent → Inbox W =
        λ x. record b { client = record b.client { on_message_event = x } } in
      let f2 : Emitter Message → Inbox W =
        λ x. record s1 { client = record s1.client { on_message = x } } in
      (
        f2 (record b.client.on_message {
          buffer = b.client.on_message.buffer ++ message_of nacl codec secret m p content ∷ [];
        }),
        >>-step (emit nacl codec secret (event_of nacl codec secret received m p content)) _ b s1
              (λ i. sent nacl codec secret (e i) f1 b)
            ∙ (λ i. if open_ i then (ok tt, s1) else sent nacl codec secret (kept i) f2 s1),
        refl,
      )
