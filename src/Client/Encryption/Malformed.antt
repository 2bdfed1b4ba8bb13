-- ===== src/Client/Encryption/Malformed.antt =====
-- client.go: `decryptPayload` on an envelope that no client makes.
use nkn_sdk_go.Base.{◌<◌, ◌≡◌, refl, false, length, lt→ltb}
use nkn_sdk_go.Base.Bytes.{Bytes}
use nkn_sdk_go.Errors.{ok, panic}
use nkn_sdk_go.Message.{Nacl, Codec, Envelope, is_nil, nonce_size}
use nkn_sdk_go.Client.Keys.{Keys}
use nkn_sdk_go.Client.Encryption.{decrypt_payload, decrypt_with_message_key}

module _ {W : Type 0} (nacl : Nacl W) (codec : Codec) (secret : Bytes) where
  -- A message with an encrypted key and a nonce of fewer than 24 bytes makes the client that receives
  -- it panic, whoever sent it.
  pub decrypt_payload-short :
      (m : Envelope) (src id pk : Bytes) (s : Keys W)
      → codec.parse_address src ≡ ok (id, pk)
      → is_nil m.encrypted_key ≡ false
      → length m.nonce < nonce_size
      → decrypt_payload nacl codec secret m src s ≡ (panic, s)
  unfolding decrypt_payload decrypt_with_message_key
  decrypt_payload-short m src id pk s from keyed short =
      rw (from, keyed, lt→ltb (length m.nonce) nonce_size short) refl
