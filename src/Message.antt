-- ===== src/Message.antt =====
-- message.go, and the generated struct types of payloads/payloads.pb.go: payloads, how they are made,
-- and the encryption of bytes under a shared key. NaCl's box and protobuf are code outside the
-- repository: `Nacl` and `Codec` hold what the code calls of them, with their documented laws.
pub mod Payloads
pub mod Box
mod Tests
use nkn_sdk_go.Base.{
  ℕ, zero, suc, ◌+◌, ◌≡◌, Bool, true, false, ◌&&◌, List, [], ◌∷◌, Option, none, some, length, ltb,
  if◌then◌else◌,
}
use nkn_sdk_go.Base.Bytes.{Bytes}
use nkn_sdk_go.Errors.{
  Outcome, ok, err, panic, decrypt_failed, invalid_payload_type, ◌>>=◌ as ◌then◌, panic_if,
}
use nkn_sdk_go.Action.{Action, pure, raise, lift, ◌>>=◌}

abbrev pub nonce_size : ℕ
nonce_size = 24

abbrev pub shared_key_size : ℕ
shared_key_size = 32

abbrev pub message_id_size : ℕ
message_id_size = 8

-- `box.Overhead`
abbrev pub overhead : ℕ
overhead = 16

-- The enum is open: a number outside it survives decoding.
pub data PayloadType : Type 0 where
  binary text ack session : PayloadType
  other : ℕ → PayloadType

-- `payloads.Payload`
pub record Payload : Type 0 where
  pub type : PayloadType
  pub message_id : Bytes
  pub content : Bytes
  pub reply_to_id : Bytes
  pub no_reply : Bool

-- `payloads.Message`
pub record Envelope : Type 0 where
  pub payload : Bytes
  pub encrypted : Bool
  pub nonce : Bytes
  pub encrypted_key : Bytes

-- What a caller passes as `interface{}`.
pub data Content : Type 0 where
  bytes : Bytes → Content
  string : Bytes → Content
  ready : Payload → Content
  nil : Content
  unsupported : Content

-- NaCl's box after precomputation, the key conversions of ed25519, and `crypto/rand`, which changes
-- the outside world `W`. A box that was sealed opens under the same nonce and key, and is longer
-- than its message by the overhead.
pub record Nacl (W : Type 0) : Type 0 where
  pub seal : Bytes → Bytes → Bytes → Bytes
  pub open_box : Bytes → Bytes → Bytes → Option Bytes
  pub precompute : Bytes → Bytes → Bytes
  pub to_curve : Bytes → Option Bytes
  pub rand : ℕ → Action W Bytes
  pub length-seal : (m n k : Bytes) → length (seal m n k) ≡ length m + overhead
  pub open_box-seal : (m n k : Bytes) → open_box (seal m n k) n k ≡ some m
  pub length-rand : (n : ℕ) (w v : W) (b : Bytes) → rand n w ≡ (ok b, v) → length b ≡ n
  pub length-precompute : (p s : Bytes) → length (precompute p s) ≡ shared_key_size

-- Protobuf and the address format. What was encoded is decoded to itself.
pub record Codec : Type 0 where
  pub marshal_text : Bytes → Outcome Bytes
  pub unmarshal_text : Bytes → Outcome Bytes
  pub marshal_payload : Payload → Outcome Bytes
  pub unmarshal_payload : Bytes → Outcome Payload
  pub marshal_envelope : Envelope → Outcome Bytes
  pub unmarshal_envelope : Bytes → Outcome Envelope
  -- `address.ParseClientAddress`: the id and the public key.
  pub parse_address : Bytes → Outcome (Bytes × Bytes)
  pub unmarshal-marshal_text : (t b : Bytes) → marshal_text t ≡ ok b → unmarshal_text b ≡ ok t
  pub unmarshal-marshal_payload :
      (p : Payload) (b : Bytes) → marshal_payload p ≡ ok b → unmarshal_payload b ≡ ok p
  pub unmarshal-marshal_envelope :
      (m : Envelope) (b : Bytes) → marshal_envelope m ≡ ok b → unmarshal_envelope b ≡ ok m

abbrev pub is_nil : Bytes → Bool
is_nil [] = true
is_nil (x ∷ xs) = false

module _ {W : Type 0} (nacl : Nacl W) where
  open nacl use {seal, open_box, rand}

  -- `encrypt`: the box under a fresh nonce, and the nonce.
  unfoldable pub encrypt : Bytes → Bytes → Action W (Bytes × Bytes)
  encrypt message key = do nonce ← rand nonce_size; pure (seal message nonce key, nonce)

  -- `decrypt`: `make([]byte, len(message)-box.Overhead)` panics on a message shorter than that.
  pub decrypt : Bytes → Bytes → Bytes → Outcome Bytes
  decrypt message nonce key =
      if ltb (length message) overhead
      then panic
      else elim (open_box message nonce key) [ none ↦ err decrypt_failed | some m ↦ ok m ]

  -- The message id of a new payload: the given one, or a random one where there is no id at all.
  unfoldable pub choose_message_id : Bytes → Bytes → Action W Bytes
  choose_message_id message_id reply_to_id =
      if is_nil message_id && is_nil reply_to_id then rand message_id_size else pure message_id

  -- `newBinaryPayload`
  unfoldable pub new_binary_payload : Bytes → Bytes → Bytes → Bool → Action W Payload
  new_binary_payload content message_id reply_to_id no_reply = do
    id ← choose_message_id message_id reply_to_id
    pure record {
      type = binary;
      message_id = id;
      content = content;
      reply_to_id = reply_to_id;
      no_reply = no_reply;
    }

  -- `newTextPayload`
  pub new_text_payload : Codec → Bytes → Bytes → Bytes → Bool → Action W Payload
  new_text_payload codec t message_id reply_to_id no_reply = do
    id ← choose_message_id message_id reply_to_id
    content ← lift (codec.marshal_text t)
    pure record {
      type = text;
      message_id = id;
      content = content;
      reply_to_id = reply_to_id;
      no_reply = no_reply;
    }

  -- `newAckPayload`
  pub new_ack_payload : Bytes → Action W Payload
  new_ack_payload reply_to_id = pure record {
    type = ack;
    message_id = [];
    content = [];
    reply_to_id = reply_to_id;
    no_reply = false;
  }

  -- `newMessagePayload`
  unfoldable pub new_message_payload : Codec → Content → Bytes → Bool → Action W Payload
  new_message_payload codec (bytes b) id no_reply = new_binary_payload b id [] no_reply
  new_message_payload codec (string t) id no_reply = new_text_payload codec t id [] no_reply
  new_message_payload codec c id no_reply = raise invalid_payload_type

  -- `NewReplyPayload`
  unfoldable pub new_reply_payload : Codec → Content → Bytes → Action W Payload
  new_reply_payload codec (bytes b) reply_to_id = new_binary_payload b [] reply_to_id false
  new_reply_payload codec (string t) reply_to_id = new_text_payload codec t [] reply_to_id false
  new_reply_payload codec nil reply_to_id = new_ack_payload reply_to_id
  new_reply_payload codec c reply_to_id = raise invalid_payload_type
