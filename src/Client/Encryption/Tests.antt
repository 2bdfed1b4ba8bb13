-- ===== src/Client/Encryption/Tests.antt =====
-- client.go: a payload to two destinations, read by the second one.
use nkn_sdk_go.Base.{ℕ, ◌≡◌, refl, false, List, [], ◌∷◌, replicate}
use nkn_sdk_go.Base.Bytes.{Bytes, text}
use nkn_sdk_go.Errors.{Outcome, ok, err, panic}
use nkn_sdk_go.Message.{Payload, text as text_type, encrypt}
use nkn_sdk_go.Client.Keys.{
  Keys, compute_key, IsCache, get_or_compute_shared_key, get_or_compute_shared_key_lem,
}
use nkn_sdk_go.Client.Encryption.{
  encrypt_payload, encrypt_by_count, encrypt_for_many, encrypt_for_each,
}
use nkn_sdk_go.Client.Encryption.Receiver.{Opens}
use nkn_sdk_go.Client.Encryption.RoundTrip.{decrypt_payload-encrypt_payload}
use nkn_sdk_go.Fixtures.Boxes.{toy_nacl}
use nkn_sdk_go.Fixtures.Codecs.{toy_codec, put}

-- The key pair of each is one number 32 times.
abbrev alice : Bytes
alice = replicate 32 1

abbrev bob : Bytes
bob = replicate 32 2

abbrev carol : Bytes
carol = replicate 32 3

abbrev greeting : Payload
greeting = record {
  type = text_type;
  message_id = text "id";
  content = text "hello";
  reply_to_id = [];
  no_reply = false;
}

abbrev start : Keys ℕ
start = record { world = 7; shared_keys = [] }

start-IsCache : (secret : Bytes) → IsCache toy_nacl secret []
start-IsCache secret pk k e = cc

abbrev sent : Outcome (List Bytes) × Keys ℕ
sent = encrypt_payload toy_nacl toy_codec alice greeting (bob ∷ carol ∷ []) start

abbrev or_none : Outcome (List Bytes) → List Bytes
or_none (ok ms) = ms
or_none (err e) = []
or_none panic = []

abbrev second : List Bytes → Bytes
second (a ∷ b ∷ ms) = b
second ms = []

decrypt_payload-encrypt_payload_example :
    (raw : Bytes) × Opens toy_nacl toy_codec carol start alice raw (second (or_none sent.0))
    × (toy_codec.unmarshal_payload raw ≡ ok greeting)
unfolding encrypt_payload encrypt_by_count encrypt_for_many encrypt_for_each encrypt
    get_or_compute_shared_key compute_key put
decrypt_payload-encrypt_payload_example =
    decrypt_payload-encrypt_payload toy_nacl toy_codec alice carol greeting (bob ∷ carol ∷ []) start
      sent.1 (or_none sent.0) 1 start alice [] alice carol [] carol (second (or_none sent.0))
      (start-IsCache alice) (start-IsCache carol) refl refl refl refl refl refl

get_or_compute_shared_key_lem_example :
    ((get_or_compute_shared_key toy_nacl alice bob start).0 ≡ compute_key toy_nacl alice bob)
    × IsCache toy_nacl alice (get_or_compute_shared_key toy_nacl alice bob start).1.shared_keys
    × ((get_or_compute_shared_key toy_nacl alice bob start).1.world ≡ 7)
get_or_compute_shared_key_lem_example =
    get_or_compute_shared_key_lem toy_nacl alice bob start (start-IsCache alice)
