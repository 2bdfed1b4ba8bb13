-- ===== src/Fixtures/Codecs.antt =====
-- A codec that writes the length of a field before it, and an address that is its public key.
use nkn_sdk_go.Base.{
  ℕ, zero, suc, ◌≡◌, refl, sym, ap, ◌∙◌, Bool, true, false, [], ◌∷◌, ◌++◌, length, take, drop,
  take-append, drop-append,
}
use nkn_sdk_go.Base.Bytes.{Bytes}
use nkn_sdk_go.Errors.{Outcome, ok, err, external, ok-injective}
use nkn_sdk_go.Base.Int.{pos}
use nkn_sdk_go.Message.{Payload, PayloadType, binary, text, ack, session, other, Envelope, Codec}

unfoldable pub put : Bytes → Bytes → Bytes
put xs rest = length xs ∷ xs ++ rest

-- The field at the front, and what follows it.
unfoldable pub get : Bytes → Bytes × Bytes
get [] = ([], [])
get (n ∷ r) = (take n r, drop n r)

get-put : (xs rest : Bytes) → get (put xs rest) ≡ (xs, rest)
unfolding get put
get-put xs rest =
    ap (λ z. (z, drop (length xs) (xs ++ rest))) (take-append (length xs) xs rest refl)
    ∙ ap (λ z. (xs, z)) (drop-append (length xs) xs rest refl)

abbrev put_type : PayloadType → ℕ
put_type binary = 0
put_type text = 1
put_type ack = 2
put_type session = 3
put_type (other n) = suc (suc (suc (suc n)))

abbrev get_type : ℕ → PayloadType
get_type zero = binary
get_type (suc zero) = text
get_type (suc (suc zero)) = ack
get_type (suc (suc (suc zero))) = session
get_type (suc (suc (suc (suc n)))) = other n

get_type-put_type : (t : PayloadType) → get_type (put_type t) ≡ t
get_type-put_type binary = refl
get_type-put_type text = refl
get_type-put_type ack = refl
get_type-put_type session = refl
get_type-put_type (other n) = refl

abbrev put_bool : Bool → ℕ
put_bool true = 1
put_bool false = 0

abbrev get_bool : ℕ → Bool
get_bool zero = false
get_bool (suc n) = true

get_bool-put_bool : (b : Bool) → get_bool (put_bool b) ≡ b
get_bool-put_bool true = refl
get_bool-put_bool false = refl

abbrev put_payload : Payload → Bytes
put_payload p =
    put_type p.type ∷ put_bool p.no_reply ∷ put p.message_id (put p.content (put p.reply_to_id []))

abbrev three_fields : PayloadType → Bool → Bytes × Bytes → Payload
three_fields t b (id, rest) = record {
  type = t;
  message_id = id;
  content = (get rest).0;
  reply_to_id = (get (get rest).1).0;
  no_reply = b;
}

abbrev get_payload : Bytes → Outcome Payload
get_payload (t ∷ b ∷ rest) = ok (three_fields (get_type t) (get_bool b) (get rest))
get_payload c = err (external (pos 0))

pub get_payload-put_payload : (p : Payload) → get_payload (put_payload p) ≡ ok p
get_payload-put_payload p =
    rw (get_type-put_type p.type, get_bool-put_bool p.no_reply)
      (rw (get-put p.message_id (put p.content (put p.reply_to_id [])))
        (rw (get-put p.content (put p.reply_to_id [])) (rw (get-put p.reply_to_id []) refl)))

abbrev put_envelope : Envelope → Bytes
put_envelope m = put_bool m.encrypted ∷ put m.payload (put m.nonce (put m.encrypted_key []))

abbrev envelope_fields : Bool → Bytes × Bytes → Envelope
envelope_fields b (payload, rest) = record {
  payload = payload;
  encrypted = b;
  nonce = (get rest).0;
  encrypted_key = (get (get rest).1).0;
}

abbrev get_envelope : Bytes → Outcome Envelope
get_envelope [] = err (external (pos 0))
get_envelope (b ∷ rest) = ok (envelope_fields (get_bool b) (get rest))

pub get_envelope-put_envelope : (m : Envelope) → get_envelope (put_envelope m) ≡ ok m
get_envelope-put_envelope m = rw (get_bool-put_bool m.encrypted) (
    rw (get-put m.payload (put m.nonce (put m.encrypted_key [])))
      (rw (get-put m.nonce (put m.encrypted_key [])) (rw (get-put m.encrypted_key []) refl)))

abbrev pub toy_codec : Codec
toy_codec = record {
  marshal_text = λ t. ok t;
  unmarshal_text = λ b. ok b;
  marshal_payload = λ p. ok (put_payload p);
  unmarshal_payload = get_payload;
  marshal_envelope = λ m. ok (put_envelope m);
  unmarshal_envelope = get_envelope;
  parse_address = λ a. ok ([], a);
  unmarshal-marshal_text = λ t b h. let e : t ≡ b = cc in ap ok (sym e);
  unmarshal-marshal_payload =
      λ p b h. let e : put_payload p ≡ b = ok-injective h in rw (← e) (get_payload-put_payload p);
  unmarshal-marshal_envelope = λ m b h.
      let e : put_envelope m ≡ b = ok-injective h in rw (← e) (get_envelope-put_envelope m);
}
