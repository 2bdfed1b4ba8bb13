-- ===== src/Client/Encryption/RoundTrip.antt =====
-- client.go: what `encryptPayload` makes for a destination, `decryptPayload` at that destination
-- turns back into the payload.
use nkn_sdk_go.Base.{ℕ, zero, suc, ◌≡◌, ◌∙◌, List, [], ◌∷◌, some, get_elem?, subst}
use nkn_sdk_go.Base.Bytes.{Bytes}
use nkn_sdk_go.Errors.{ok}
use nkn_sdk_go.Action.{lift, >>=-eq-ok}
use nkn_sdk_go.Message.{Nacl, Codec, Payload}
use nkn_sdk_go.Client.Keys.{Keys, compute_key, IsCache}
use nkn_sdk_go.Client.Encryption.{
  encrypt_for_one, encrypt_for_many, encrypt_by_count, encrypt_payload,
}
use nkn_sdk_go.Client.Encryption.Sender.{
  alone, encrypt_for_each-get, encrypt_for_one-get, encrypt_for_many-get,
}
use nkn_sdk_go.Client.Encryption.Receiver.{Opens, keyed-Opens, alone-Opens}

get_only : (i : ℕ) (a b : Bytes) → get_elem? (a ∷ []) i ≡ some b → a ≡ b
get_only zero a b h = cc
get_only (suc i) a b h = cc

module _ {W : Type 0} (nacl : Nacl W) (codec : Codec) (secret receiver : Bytes) where
  open codec use {marshal_payload, parse_address, unmarshal_envelope, unmarshal_payload}

  module _ (r : Keys W) (src src_id src_pk dest_id dest_pk dest : Bytes)
      (known : IsCache nacl receiver r.shared_keys)
      (from : codec.parse_address src ≡ ok (src_id, src_pk))
      (to : codec.parse_address dest ≡ ok (dest_id, dest_pk))
      (agreed : compute_key nacl receiver src_pk ≡ compute_key nacl secret dest_pk) where
    many-Opens :
        (raw : Bytes) (dests : List Bytes) (s t : Keys W) (msgs : List Bytes) (i : ℕ) (b : Bytes)
        → IsCache nacl secret s.shared_keys
        → encrypt_for_many nacl codec secret raw dests s ≡ (ok msgs, t)
        → get_elem? dests i ≡ some dest
        → get_elem? msgs i ≡ some b
        → Opens nacl codec receiver r src raw b
    many-Opens raw dests s t msgs i b valid h at_i got =
        let (key, mn, u, lkey, lmn, valid', loop) =
          encrypt_for_many-get nacl codec secret raw dests s t msgs valid h in
        let (id, pk, sk, kn, parsed, computed, lkn, encoded) =
          encrypt_for_each-get nacl codec secret key (nacl.seal raw mn key) mn dests u t msgs i dest
            b valid' loop at_i got in
        let same : pk ≡ dest_pk = cc in
        keyed-Opens nacl codec secret receiver r src src_id src_pk sk key raw mn kn b known from
          (agreed ∙ subst (λ x. compute_key nacl secret x ≡ ok sk) same computed) lkn lmn lkey
          encoded

    one-Opens :
        (raw : Bytes) (s t : Keys W) (msgs : List Bytes) (i : ℕ) (b : Bytes)
        → IsCache nacl secret s.shared_keys
        → encrypt_for_one nacl codec secret raw dest s ≡ (ok msgs, t)
        → get_elem? msgs i ≡ some b
        → Opens nacl codec receiver r src raw b
    one-Opens raw s t msgs i b valid h got =
        let (id, pk, sk, n, b', parsed, computed, ln, encoded, only) =
          encrypt_for_one-get nacl codec secret raw dest s t msgs valid h in
        let same : pk ≡ dest_pk = cc in
        let same_b : b' ≡ b = get_only i b' b (rw only at got) in
        alone-Opens nacl codec secret receiver r src src_id src_pk sk raw n b known from
          (agreed ∙ subst (λ x. compute_key nacl secret x ≡ ok sk) same computed) ln
          (subst
            (λ x. codec.marshal_envelope (alone nacl codec secret (nacl.seal raw n sk) n) ≡ ok x)
            same_b encoded)

    by_count-Opens :
        (raw : Bytes) (dests : List Bytes) (s t : Keys W) (msgs : List Bytes) (i : ℕ) (b : Bytes)
        → IsCache nacl secret s.shared_keys
        → encrypt_by_count nacl codec secret raw dests s ≡ (ok msgs, t)
        → get_elem? dests i ≡ some dest
        → get_elem? msgs i ≡ some b
        → Opens nacl codec receiver r src raw b
    unfolding encrypt_by_count
    by_count-Opens raw [] s t msgs i b valid h at_i got = cc
    by_count-Opens raw (d ∷ []) s t msgs i b valid h at_i got =
        let same : d ≡ dest = get_only i d dest at_i in
        one-Opens raw s t msgs i b valid
          (subst (λ x. encrypt_for_one nacl codec secret raw x s ≡ (ok msgs, t)) same h) got
    by_count-Opens raw (d ∷ e ∷ ds) s t msgs i b valid h at_i got =
        many-Opens raw (d ∷ e ∷ ds) s t msgs i b valid h at_i got

  -- Suppose that a client encrypts a payload for one or more destinations, that a receiver stands
  -- behind the i-th of them, and that the two sides compute the same shared key from each other's
  -- public keys, both with sound caches of such keys. Then the i-th message decodes to an encrypted
  -- envelope, which the receiver decrypts, without an error or a panic, to bytes that decode to the
  -- payload.
  pub decrypt_payload-encrypt_payload :
      (payload : Payload) (dests : List Bytes) (s t : Keys W) (msgs : List Bytes) (i : ℕ)
      (r : Keys W) (src src_id src_pk dest dest_id dest_pk b : Bytes)
      → IsCache nacl secret s.shared_keys
      → IsCache nacl receiver r.shared_keys
      → encrypt_payload nacl codec secret payload dests s ≡ (ok msgs, t)
      → get_elem? dests i ≡ some dest
      → get_elem? msgs i ≡ some b
      → codec.parse_address src ≡ ok (src_id, src_pk)
      → codec.parse_address dest ≡ ok (dest_id, dest_pk)
      → compute_key nacl receiver src_pk ≡ compute_key nacl secret dest_pk
      → (raw : Bytes) × Opens nacl codec receiver r src raw b × (unmarshal_payload raw ≡ ok payload)
  unfolding encrypt_payload
  decrypt_payload-encrypt_payload payload dests s t msgs i r src src_id src_pk dest dest_id dest_pk
        b valid known h at_i got from to agreed =
      let (raw, s1, e1, h1) = >>=-eq-ok (lift (marshal_payload payload)) _ s h in
      (
        raw,
        by_count-Opens r src src_id src_pk dest_id dest_pk dest known from to agreed raw dests s1 t
            msgs i b
            (subst (λ (u : Keys W). IsCache nacl secret u.shared_keys) (λ j. (e1 j).1) valid) h1
            at_i got,
        codec.unmarshal-marshal_payload payload raw (λ j. (e1 j).0),
      )
