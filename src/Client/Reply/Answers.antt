-- ===== src/Client/Reply/Answers.antt =====
-- client.go: a reply finds the `Send` that it answers.
use nkn_sdk_go.Base.{◌≡◌, sym, ap, ◌∙◌, subst, Bool, true, false, List, [], ◌∷◌, none, some}
use nkn_sdk_go.Base.Int.{pos}
use nkn_sdk_go.Base.Bytes.{Bytes, lookup}
use nkn_sdk_go.Errors.{ok, ok-injective}
use nkn_sdk_go.Action.{Action, >>=-eq-ok}
use nkn_sdk_go.Channel.{new_emitter}
use nkn_sdk_go.Message.{Nacl, Codec, Payload, Content, is_nil, new_reply_payload}
use nkn_sdk_go.Message.Payloads.{new_reply_payload_lem}
use nkn_sdk_go.Client.State.{Client, Net, Message, outside}
use nkn_sdk_go.Client.Outbound.{Signing}
use nkn_sdk_go.Client.Batch.{send_timeout}
use nkn_sdk_go.Client.Inbound.{Inbox, InboundMessage, deliver_reply, deliver_to}
use nkn_sdk_go.Client.Send.{SendConfig, payload_of, send_message}
use nkn_sdk_go.Client.Send.Reply.{send_message-sends}
use nkn_sdk_go.Client.Reply.{send_reply, reply_unless, reply}

module _ {W : Type 0} (nacl : Nacl W) (codec : Codec) (secret : Bytes) (signing : Signing W)
    (net : Net W) (process_dests : List Bytes → Action W (List Bytes)) where
  -- What a reply to a message has sent: a payload that names the message, to its source, encrypted just
  -- if the message was.
  pub record IsReplied (msg : Message) (c c' : Client W) : Type 0 where
    pub payload : Payload
    pub names : payload.reply_to_id ≡ msg.message_id
    pub written :
        send_timeout nacl codec secret signing net process_dests
          (msg.src ∷ [])
          payload
          msg.encrypted
          (pos 0)
          c
        ≡ (ok tt, c')

  reply_unless-IsReplied :
      (no_reply : Bool) (msg : Message) (content : Content) (c c' : Client W)
      → no_reply ≡ false
      → is_nil msg.message_id ≡ false
      → reply_unless nacl codec secret signing net process_dests no_reply msg content c
        ≡ (ok tt, c')
      → IsReplied msg c c'
  unfolding send_reply
  reply_unless-IsReplied true msg content c c' n named h = cc
  reply_unless-IsReplied false msg content c c' n named h =
      let making = outside (new_reply_payload nacl codec content msg.message_id) in
      let (p, s, e, h1) = >>=-eq-ok making _ c h in
      let (is_reply, same) =
        new_reply_payload_lem nacl codec content msg.message_id p c.keys.world s.keys.world named
          (λ j. ((e j).0, (e j).1.keys.world)) in
      let world : s.keys.world ≡ c.keys.world = same in
      let drawn = (λ j. (e j).1.keys.world) ∙ world in
      let unchanged : s ≡ c =
        sym (λ j. (e j).1) ∙ (λ j. record c { keys = record c.keys { world = drawn j } }) in
      record {
        payload = p;
        names = is_reply.0;
        written =
            subst
              (λ z.
                send_timeout nacl codec secret signing net process_dests (msg.src ∷ []) p
                  msg.encrypted (pos 0) z
                ≡ (ok tt, c'))
              unchanged h1;
      }

  pub reply-IsReplied :
      (msg : Message) (content : Content) (c c' : Client W)
      → msg.no_reply ≡ false
      → is_nil msg.message_id ≡ false
      → reply nacl codec secret signing net process_dests msg content c ≡ (ok tt, c')
      → IsReplied msg c c'
  unfolding reply
  reply-IsReplied msg content c c' n named h =
      reply_unless-IsReplied msg.no_reply msg content c c' n named h

module _ {W : Type 0} (nacl : Nacl W) (codec : Codec) (secret secret' : Bytes)
    (signing signing' : Signing W) (net net' : Net W)
    (process_dests process_dests' : List Bytes → Action W (List Bytes))
    (resolve : List Bytes → Action W (List Bytes)) where
  -- A client sends a message with `Send`, wants a reply, and has no other message of that id waiting;
  -- another client replies to the message of that id, which is not empty. Then that client has written to
  -- the source of the message a payload that, when it is delivered to the first client, goes to the
  -- channel that `Send` has returned.
  pub reply-IsDelivered :
      (dests : List Bytes) (request : Content) (cfg : SendConfig) (b b' : Inbox W) (p : Payload)
      (msg : Message) (content : Content) (c c' : Client W)
      → send_message nacl codec secret signing net process_dests resolve dests request cfg b
        ≡ (ok tt, b')
      → (payload_of nacl codec secret signing net process_dests resolve request cfg
          (resolve dests b.client.keys.world).1).0
        ≡ ok p
      → cfg.no_reply ≡ false
      → msg.message_id ≡ p.message_id
      → lookup msg.message_id b.waiting ≡ none
      → is_nil msg.message_id ≡ false
      → msg.no_reply ≡ false
      → reply nacl codec secret' signing' net' process_dests' msg content c ≡ (ok tt, c')
      → (r : IsReplied nacl codec secret' signing' net' process_dests' msg c c')
        × ((m : InboundMessage) (data_ : Bytes)
            → deliver_reply nacl codec secret m r.payload data_ b'
              ≡ deliver_to nacl codec secret (some (new_emitter 1 false)) m r.payload data_ b')
  reply-IsDelivered dests request cfg b b' p msg content c c' sends made wanted id free named wants
        replies =
      let s =
        send_message-sends nacl codec secret signing net process_dests resolve dests request cfg b
          b' sends in
      let id' : msg.message_id ≡ s.payload.message_id =
        id ∙ ap (λ x. x.message_id) (ok-injective (sym made ∙ (λ i. (s.made i).0))) in
      let r =
        reply-IsReplied nacl codec secret' signing' net' process_dests' msg content c c' wants named
          replies in
      (
        r,
        (λ m data_.
            s.answered wanted (ap (λ k. lookup k b.waiting) (sym id') ∙ free) m r.payload data_
              (r.names ∙ id')),
      )
