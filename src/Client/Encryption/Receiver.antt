-- ===== src/Client/Encryption/Receiver.antt =====
-- client.go: `decryptPayload` opens what was sealed for the receiver.
use nkn_sdk_go.Base.{
  ℕ, ◌≡◌, refl, ◌∙◌, true, false, ◌++◌, length, replicate, arith, take-append, drop-append,
  length-append, ltb,
}
use nkn_sdk_go.Base.Bytes.{Bytes}
use nkn_sdk_go.Errors.{ok}
use nkn_sdk_go.Message.{Nacl, Codec, Envelope, is_nil, nonce_size, shared_key_size}
use nkn_sdk_go.Message.Box.{decrypt-seal}
use nkn_sdk_go.Client.Keys.{
  Keys, compute_key, get_or_compute_shared_key, get_or_compute_shared_key_lem, IsCache,
}
use nkn_sdk_go.Client.Encryption.{
  to_array, decrypt_with_message_key, decrypt_with_shared_key, decrypt_payload,
}
use nkn_sdk_go.Client.Encryption.Sender.{keyed, alone}

to_array-exact : (n : ℕ) (b : Bytes) → length b ≡ n → to_array n b ≡ b
to_array-exact n b h = take-append n b (replicate n 0) h

-- The receiver decodes the bytes of a message and decrypts it to `raw`.
abbrev pub Opens : {W : Type 0} → Nacl W → Codec → Bytes → Keys W → Bytes → Bytes → Bytes → Type 0
Opens nacl codec receiver r src raw b =
    (m : Envelope) × (codec.unmarshal_envelope b ≡ ok m)
    × (m.encrypted ≡ true)
    × ((decrypt_payload nacl codec receiver m src r).0 ≡ ok raw)

module _ {W : Type 0} (nacl : Nacl W) (codec : Codec) (secret : Bytes) where
  open codec use {
    marshal_payload, marshal_envelope, parse_address, unmarshal_envelope, unmarshal_payload,
  }

  seal-not_nil : (m n k : Bytes) → is_nil (nacl.seal m n k) ≡ false
  seal-not_nil m n k = ground (arith, nacl.length-seal m n k)

  -- A receiver: any client that shares with the destination's key what the sender shares.
  module _ (receiver : Bytes) (r : Keys W) (src src_id src_pk sk : Bytes) where
    call_of_key :
        IsCache nacl receiver r.shared_keys
        → compute_key nacl receiver src_pk ≡ ok sk
        → (t : Keys W) × (get_or_compute_shared_key nacl receiver src_pk r ≡ (ok sk, t))
    call_of_key valid agreed =
        let t = (get_or_compute_shared_key nacl receiver src_pk r).1 in
        let same = (get_or_compute_shared_key_lem nacl receiver src_pk r valid).0 in
        (t, λ i. ((same ∙ agreed) i, t))

    decrypt_keyed :
        (key raw mn kn : Bytes)
        → IsCache nacl receiver r.shared_keys
        → compute_key nacl receiver src_pk ≡ ok sk
        → length kn ≡ nonce_size
        → length mn ≡ nonce_size
        → length key ≡ shared_key_size
        → (decrypt_with_message_key nacl codec receiver
            (keyed nacl codec secret (nacl.seal raw mn key) mn kn (nacl.seal key kn sk))
            src_pk
            r).0
          ≡ ok raw
    unfolding decrypt_with_message_key
    decrypt_keyed key raw mn kn valid agreed lkn lmn lkey =
        let (t, called) = call_of_key valid agreed in
        let enough : ltb (length (kn ++ mn)) nonce_size ≡ false =
          ground (arith, length-append kn mn) in
        rw (
          enough,
          called,
          take-append nonce_size kn mn lkn,
          drop-append nonce_size kn mn lkn,
          to_array-exact nonce_size kn lkn,
          to_array-exact nonce_size mn lmn,
          decrypt-seal nacl key kn sk,
          to_array-exact shared_key_size key lkey,
          decrypt-seal nacl raw mn key,
        )

    decrypt_alone :
        (raw n : Bytes)
        → IsCache nacl receiver r.shared_keys
        → compute_key nacl receiver src_pk ≡ ok sk
        → length n ≡ nonce_size
        → (decrypt_with_shared_key nacl codec receiver
            (alone nacl codec secret (nacl.seal raw n sk) n)
            src_pk
            r).0
          ≡ ok raw
    unfolding decrypt_with_shared_key
    decrypt_alone raw n valid agreed ln =
        let (t, called) = call_of_key valid agreed in
        rw (called, to_array-exact nonce_size n ln, decrypt-seal nacl raw n sk)

    pub keyed-Opens :
        (key raw mn kn b : Bytes)
        → IsCache nacl receiver r.shared_keys
        → parse_address src ≡ ok (src_id, src_pk)
        → compute_key nacl receiver src_pk ≡ ok sk
        → length kn ≡ nonce_size
        → length mn ≡ nonce_size
        → length key ≡ shared_key_size
        → marshal_envelope
            (keyed nacl codec secret (nacl.seal raw mn key) mn kn (nacl.seal key kn sk))
          ≡ ok b
        → Opens nacl codec receiver r src raw b
    unfolding decrypt_payload
    keyed-Opens key raw mn kn b valid parsed agreed lkn lmn lkey encoded = (
      keyed nacl codec secret (nacl.seal raw mn key) mn kn (nacl.seal key kn sk),
      codec.unmarshal-marshal_envelope _ b encoded,
      refl,
      rw (parsed, seal-not_nil key kn sk) (decrypt_keyed key raw mn kn valid agreed lkn lmn lkey),
    )

    pub alone-Opens :
        (raw n b : Bytes)
        → IsCache nacl receiver r.shared_keys
        → parse_address src ≡ ok (src_id, src_pk)
        → compute_key nacl receiver src_pk ≡ ok sk
        → length n ≡ nonce_size
        → marshal_envelope (alone nacl codec secret (nacl.seal raw n sk) n) ≡ ok b
        → Opens nacl codec receiver r src raw b
    unfolding decrypt_payload
    alone-Opens raw n b valid parsed agreed ln encoded = (
      alone nacl codec secret (nacl.seal raw n sk) n,
      codec.unmarshal-marshal_envelope _ b encoded,
      refl,
      rw parsed (decrypt_alone raw n valid agreed ln),
    )
