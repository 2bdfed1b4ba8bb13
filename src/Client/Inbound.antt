-- ===== src/Client/Inbound.antt =====
-- client.go: the part of `handleMessage` that takes an inbound message, from its decoded envelope on:
-- decryption, the event, and the message for the channel that waits for it. Client/Handling
-- has what comes before.
pub mod Delivery
pub mod Stable
pub mod Safety
mod Tests
use nkn_sdk_go.Base.{
  ℕ, ◌≡◌, Bool, true, false, List, [], ◌∷◌, Option, none, some, length, not, if◌then◌else◌,
}
use nkn_sdk_go.Base.Int.{ℤ, negsuc}
use nkn_sdk_go.Base.Bytes.{Bytes, Dict, lookup, bytes_eq}
use nkn_sdk_go.Errors.{Outcome, ok, err, panic, unencrypted_message}
use nkn_sdk_go.Action.{Action, pure, raise, lift, gets, modify, ◌>>=◌, ◌>>◌}
use nkn_sdk_go.Channel.{Emitter, receive}
use nkn_sdk_go.Message.{
  Nacl, Codec, Envelope, Payload, PayloadType, binary, text, ack, session, other, is_nil,
}
use nkn_sdk_go.Client.Encryption.{decrypt_payload}
use nkn_sdk_go.Client.State.{Client, Message, MessageEvent, EventType, received, received_reply}

-- A client with the channels of `responseChannels`, which wait for replies by message id.
pub record Inbox (W : Type 0) : Type 0 where
  pub client : Client W
  pub waiting : Dict (Emitter Message)
  pub allow_unencrypted : Bool

-- `delete` on a map
abbrev pub remove {ℓ} : {V : Type ℓ} → Bytes → Dict V → Dict V
remove k [] = []
remove k ((j, v) ∷ d) = let rest = remove k d in if bytes_eq j k then rest else (j, v) ∷ rest

abbrev pub contains {ℓ} : {V : Type ℓ} → Option V → Bool
contains none = false
contains (some v) = true

-- `pb.InboundMessage`, with its payload decoded
pub record InboundMessage : Type 0 where
  pub src : Bytes
  pub envelope : Envelope

module _ {W : Type 0} (nacl : Nacl W) (codec : Codec) (secret : Bytes) where
  -- The bytes of the payload, decrypted or, where that is allowed, as they came.
  pub open_envelope : InboundMessage → Action (Inbox W) Bytes
  open_envelope m b =
      if m.envelope.encrypted
      then (let (o, keys) = decrypt_payload nacl codec secret m.envelope m.src b.client.keys in
          (o, record b { client = record b.client { keys = keys } }))
      else if b.allow_unencrypted
      then (ok m.envelope.payload, b)
      else (err unencrypted_message, b)

  -- The data of a text is its text; an acknowledgement has none.
  pub data_of : Payload → Outcome Bytes
  data_of p = elim p.type [ text ↦ codec.unmarshal_text p.content | ack ↦ ok [] | _ ↦ ok p.content ]

  abbrev pub message_of : InboundMessage → Payload → Bytes → Message
  message_of m p content = record {
    src = m.src;
    content = content;
    type = p.type;
    encrypted = m.envelope.encrypted;
    message_id = p.message_id;
    no_reply = p.no_reply;
  }

  abbrev pub event_of : EventType → InboundMessage → Payload → Bytes → MessageEvent
  event_of kind m p content = record {
    event_type = kind;
    sub_client_id = negsuc 0;
    destinations = [];
    src = m.src;
    message_id = p.message_id;
    message_type = p.type;
    encrypted = m.envelope.encrypted;
    data_size = length content;
    no_reply = p.no_reply;
  }

  -- A send on one of the client's channels.
  abbrev pub sent {ℓ} :
      {A : Type ℓ}
      → Outcome (Emitter A)
      → (Emitter A → Inbox W)
      → Inbox W
      → Outcome (Unit {0}) × Inbox W
  sent (ok e) f b = (ok tt, f e)
  sent (err x) f b = (err x, b)
  sent panic f b = (panic, b)

  unfoldable pub emit : MessageEvent → Action (Inbox W) (Unit {0})
  emit x b =
      sent (receive b.client.on_message_event x)
        (λ e. record b { client = record b.client { on_message_event = e } }) b

  pub deliver_to :
      Option (Emitter Message)
      → InboundMessage
      → Payload
      → Bytes
      → Inbox W
      → Outcome (Option (Emitter Message)) × Inbox W
  unfolding emit
  deliver_to none m p content b = (ok none, b)
  deliver_to (some channel) m p content b =
      (do
        modify (λ s. record s { waiting = remove p.reply_to_id s.waiting })
        emit (event_of received_reply m p content)
        channel' ← lift (receive channel (message_of m p content))
        pure (some channel'))
        b

  -- A reply goes to the channel that waits for it, and to no other place; the channel itself, which the
  -- sender holds, is returned.
  pub deliver_reply :
      InboundMessage → Payload → Bytes → Inbox W → Outcome (Option (Emitter Message)) × Inbox W
  unfolding deliver_to
  deliver_reply m p content b = deliver_to (lookup p.reply_to_id b.waiting) m p content b

  -- Any other message is for `OnMessage`, unless the client was closed meanwhile.
  pub deliver_message : InboundMessage → Payload → Bytes → Action (Inbox W) (Unit {0})
  unfolding emit
  deliver_message m p content = do
    emit (event_of received m p content)
    (λ b.
        if b.client.is_closed
        then (ok tt, b)
        else sent (receive b.client.on_message (message_of m p content))
            (λ e. record b { client = record b.client { on_message = e } }) b)

  abbrev pub ignore {ℓ} : {A : Type ℓ} → Action (Inbox W) A → Action (Inbox W) (Unit {0})
  ignore m = do a ← m; pure tt

  pub deliver : InboundMessage → Payload → Bytes → Action (Inbox W) (Unit {0})
  unfolding deliver_reply deliver_message
  deliver m p content =
      if is_nil p.reply_to_id
      then deliver_message m p content
      else ignore (deliver_reply m p content)

  -- `handleMessage` on an inbound message.
  pub handle_inbound : InboundMessage → Action (Inbox W) (Unit {0})
  unfolding open_envelope data_of deliver
  handle_inbound m b =
      if b.client.is_closed
      then (ok tt, b)
      else (do
        raw ← open_envelope m
        p ← lift (codec.unmarshal_payload raw)
        content ← lift (data_of p)
        deliver m p content)
          b
