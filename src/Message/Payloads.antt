-- ===== src/Message/Payloads.antt =====
-- message.go: what `NewReplyPayload` makes.
use nkn_sdk_go.Base.{◌≡◌, ◌∙◌, refl, sym, ap, false, []}
use nkn_sdk_go.Base.Bytes.{Bytes}
use nkn_sdk_go.Errors.{Outcome, ok, ok-injective}
use nkn_sdk_go.Action.{>>=-eq-ok, lift}
use nkn_sdk_go.Message.{
  Content, bytes, string, ready, nil, unsupported, Payload, Codec, Nacl, is_nil, choose_message_id,
  new_binary_payload, new_text_payload, new_ack_payload, new_reply_payload,
}

module _ {W : Type 0} (nacl : Nacl W) (codec : Codec) where
  no_id : (id : Bytes) (w : W) → is_nil id ≡ false → choose_message_id nacl [] id w ≡ (ok [], w)
  unfolding choose_message_id
  no_id id w named = rw named refl

  -- What a reply to `id` is like.
  abbrev pub IsReply : Bytes → Payload → Type 0
  IsReply id p = (p.reply_to_id ≡ id) × (p.message_id ≡ []) × (p.no_reply ≡ false)

  IsReply-from :
      (id i : Bytes) (p q : Payload) (w s v : W)
      → ◌≡◌ {A = Outcome Bytes × W} (ok [], w) (ok i, s)
      → ◌≡◌ {A = Outcome Payload × W} (ok q, s) (ok p, v)
      → q.reply_to_id ≡ id
      → q.message_id ≡ i
      → q.no_reply ≡ false
      → IsReply id p × (v ≡ w)
  IsReply-from id i p q w s v a b r m n =
      let same : q ≡ p = ok-injective (λ j. (b j).0) in
      (
        (
          ap (λ z. z.reply_to_id) (sym same) ∙ r,
          ap (λ z. z.message_id) (sym same) ∙ m ∙ sym (ok-injective (λ j. (a j).0)),
          ap (λ z. z.no_reply) (sym same) ∙ n,
        ),
        sym (λ j. (b j).1) ∙ sym (λ j. (a j).1),
      )

  -- A payload that replies to a message names it, has no id of its own, and may be replied to,
  -- whether it is bytes, text or an acknowledgement; nothing random is drawn for it.
  pub new_reply_payload_lem :
      (c : Content) (id : Bytes) (p : Payload) (w v : W)
      → is_nil id ≡ false
      → new_reply_payload nacl codec c id w ≡ (ok p, v)
      → IsReply id p × (v ≡ w)
  unfolding new_reply_payload new_binary_payload new_text_payload new_ack_payload
  new_reply_payload_lem (bytes b) id p w v named h =
      let (i, s, e, h1) = >>=-eq-ok (choose_message_id nacl [] id) _ w h in
      IsReply-from id i p _ w s v (sym (no_id id w named) ∙ e) h1 refl refl refl
  new_reply_payload_lem (string t) id p w v named h =
      let (i, s, e, h1) = >>=-eq-ok (choose_message_id nacl [] id) _ w h in
      let (c, s2, e2, h2) = >>=-eq-ok (lift (codec.marshal_text t)) _ s h1 in
      IsReply-from id i p _ w s2 v (sym (no_id id w named) ∙ e ∙ (λ j. (ok i, (e2 j).1))) h2 refl
        refl refl
  new_reply_payload_lem nil id p w v named h = IsReply-from id [] p _ w w v refl h refl refl refl
  new_reply_payload_lem (ready q) id p w v named h = cc
  new_reply_payload_lem unsupported id p w v named h = cc
