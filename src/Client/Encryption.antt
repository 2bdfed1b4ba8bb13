-- ===== src/Client/Encryption.antt =====
-- client.go: `encryptPayload` and `decryptPayload`, end-to-end encryption of a payload.
pub mod Sender
pub mod Receiver
pub mod RoundTrip
pub mod Malformed
mod Tests
use nkn_sdk_go.Base.{
  ℕ, suc, ◌≡◌, Bool, true, false, List, [], ◌∷◌, ◌++◌, Option, none, some, length, ltb, take, drop,
  replicate, if◌then◌else◌,
}
use nkn_sdk_go.Base.Bytes.{Bytes}
use nkn_sdk_go.Errors.{Outcome, ok, err, panic}
use nkn_sdk_go.Action.{Action, pure, lift, ◌>>=◌}
use nkn_sdk_go.Message.{
  Nacl, Codec, Payload, Envelope, encrypt, decrypt, is_nil, nonce_size, shared_key_size,
}
use nkn_sdk_go.Client.Keys.{Keys, get_or_compute_shared_key}

-- `copy(a[:], b)` into a zeroed array of n bytes.
abbrev pub to_array : ℕ → Bytes → Bytes
to_array n b = take n (b ++ replicate n 0)

module _ {W : Type 0} (nacl : Nacl W) (codec : Codec) (secret : Bytes) where
  open codec use {marshal_payload, marshal_envelope, parse_address}

  -- A call that only changes the outside world.
  abbrev pub outside : {A : Type 0} → Action W A → Action (Keys W) A
  outside m s = let (o, w) = m s.world in (o, record s { world = w })

  -- The loop of `encryptPayload` over several destinations: for each, the message key under the
  -- key that is shared with that destination.
  pub encrypt_for_each : Bytes → Bytes → Bytes → List Bytes → Action (Keys W) (List Bytes)
  encrypt_for_each key ciphertext message_nonce [] s = (ok [], s)
  encrypt_for_each key ciphertext message_nonce (dest ∷ dests) s =
      (do
        (id, dest_pubkey) ← lift (parse_address dest)
        shared_key ← get_or_compute_shared_key nacl secret dest_pubkey
        (encrypted_key, key_nonce) ← outside (encrypt nacl key shared_key)
        msg ← lift (
            marshal_envelope record {
              payload = ciphertext;
              encrypted = true;
              nonce = key_nonce ++ message_nonce;
              encrypted_key = encrypted_key;
            })
        msgs ← encrypt_for_each key ciphertext message_nonce dests
        pure (msg ∷ msgs))
        s

  -- The rest of `encryptPayload` for one destination.
  pub encrypt_for_one : Bytes → Bytes → Action (Keys W) (List Bytes)
  encrypt_for_one raw_payload dest = do
    (id, dest_pubkey) ← lift (parse_address dest)
    shared_key ← get_or_compute_shared_key nacl secret dest_pubkey
    (ciphertext, nonce) ← outside (encrypt nacl raw_payload shared_key)
    msg ← lift (
        marshal_envelope
          record { payload = ciphertext; encrypted = true; nonce = nonce; encrypted_key = [] })
    pure (msg ∷ [])

  pub encrypt_for_many : Bytes → List Bytes → Action (Keys W) (List Bytes)
  encrypt_for_many raw_payload dests = do
    key ← outside (nacl.rand shared_key_size)
    (ciphertext, message_nonce) ← outside (encrypt nacl raw_payload key)
    encrypt_for_each key ciphertext message_nonce dests

  -- The test `len(dests) > 1` and its two branches.
  pub encrypt_by_count : Bytes → List Bytes → Action (Keys W) (List Bytes)
  encrypt_by_count raw_payload [] = lift panic
  encrypt_by_count raw_payload (dest ∷ []) = encrypt_for_one raw_payload dest
  encrypt_by_count raw_payload (dest ∷ e ∷ dests) = encrypt_for_many raw_payload (dest ∷ e ∷ dests)

  -- `encryptPayload`: `dests[0]` panics where there is no destination.
  pub encrypt_payload : Payload → List Bytes → Action (Keys W) (List Bytes)
  encrypt_payload payload dests = do
    raw_payload ← lift (marshal_payload payload)
    encrypt_by_count raw_payload dests

  -- `decryptPayload` where the envelope holds a message key: `msg.Nonce[nonceSize:]` panics on a
  -- nonce that is shorter.
  pub decrypt_with_message_key : Envelope → Bytes → Action (Keys W) Bytes
  decrypt_with_message_key msg src_pubkey =
      if ltb (length msg.nonce) nonce_size then lift panic else do
        shared_key ← get_or_compute_shared_key nacl secret src_pubkey
        decrypted_key ← lift (
            decrypt nacl msg.encrypted_key (to_array nonce_size (take nonce_size msg.nonce))
              shared_key)
        lift (
            decrypt nacl msg.payload (to_array nonce_size (drop nonce_size msg.nonce))
              (to_array shared_key_size decrypted_key))

  -- `decryptPayload` where the payload is under the shared key itself.
  pub decrypt_with_shared_key : Envelope → Bytes → Action (Keys W) Bytes
  decrypt_with_shared_key msg src_pubkey = do
    shared_key ← get_or_compute_shared_key nacl secret src_pubkey
    lift (decrypt nacl msg.payload (to_array nonce_size msg.nonce) shared_key)

  -- `decryptPayload`.
  pub decrypt_payload : Envelope → Bytes → Action (Keys W) Bytes
  decrypt_payload msg src_addr = do
    (id, src_pubkey) ← lift (parse_address src_addr)
    if is_nil msg.encrypted_key
        then decrypt_with_shared_key msg src_pubkey
        else decrypt_with_message_key msg src_pubkey
