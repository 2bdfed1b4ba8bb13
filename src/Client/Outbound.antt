-- ===== src/Client/Outbound.antt =====
-- client.go: the parts of `newOutboundMessage` and `newClientMessage` that read no state of the
-- client. Signing, hexadecimal decoding, encoding and compression are code outside the repository.
use nkn_sdk_go.Base.{
  ℕ, ◌+◌, ◌%◌, ◌^◌, Bool, true, false, List, [], ◌∷◌, Option, none, some, length, ltb,
  if◌then◌else◌, get_elem?,
}
use nkn_sdk_go.Base.Bytes.{Bytes}
use nkn_sdk_go.Errors.{Outcome, ok, panic, ◌>>=◌}
use nkn_sdk_go.Message.{Codec, is_nil}

-- `pb.OutboundMessage`
pub record OutboundMessage : Type 0 where
  pub dests : List Bytes
  pub payloads : List Bytes
  pub max_holding_seconds : ℕ
  pub block_hash : Bytes
  pub nonce : ℕ
  pub signatures : List Bytes

-- What the code calls to sign and encode an outbound message.
pub record Signing (W : Type 0) : Type 0 where
  pub decode_hex : Bytes → Outcome Bytes
  pub rand_uint32 : W → ℕ × W
  -- The signature over the chain to one destination: node key, block hash, nonce, destination id
  -- and key, size of the data.
  pub sign : Bytes → Bytes → ℕ → Bytes → Bytes → ℕ → Outcome Bytes
  pub marshal_outbound : OutboundMessage → Outcome Bytes
  -- `pb.ClientMessage` with its compression type, and the encoded whole.
  pub compress : Bytes → Outcome Bytes
  pub marshal_client_message : Bool → Bytes → Outcome Bytes

module _ {W : Type 0} (codec : Codec) (signing : Signing W) where
  open signing use {decode_hex, sign, marshal_outbound, compress, marshal_client_message}

  abbrev or_panic : Option Bytes → Outcome Bytes
  or_panic none = panic
  or_panic (some b) = ok b

  -- `plds[i]` if there is more than one, else `plds[0]`; out of range it panics.
  unfoldable pub data_at : List Bytes → ℕ → Outcome Bytes
  data_at [] i = panic
  data_at (p ∷ []) i = ok p
  data_at (p ∷ q ∷ ps) i = or_panic (get_elem? (p ∷ q ∷ ps) i)

  -- The loop of `newOutboundMessage` over the destinations.
  unfoldable pub sign_each : Bytes → Bytes → ℕ → List Bytes → ℕ → List Bytes → Outcome (List Bytes)
  unfolding data_at
  sign_each node_pk hash nonce plds i [] = ok []
  sign_each node_pk hash nonce plds i (dest ∷ dests) = do
    (dest_id, dest_pk) ← codec.parse_address dest
    b ← data_at plds i
    signature ← sign node_pk hash nonce dest_id dest_pk (length b % 2 ^ 32)
    signatures ← sign_each node_pk hash nonce plds (i + 1) dests
    ok (signature ∷ signatures)

  -- The block hash of the chain, if the node has sent one.
  unfoldable pub block_hash_of : Bytes → Outcome Bytes
  block_hash_of hash = if is_nil hash then ok [] else decode_hex hash

  -- `newClientMessage`, and its encoding: several payloads are compressed.
  unfoldable pub client_message_bytes : OutboundMessage → Outcome Bytes
  client_message_bytes msg = do
    content ← marshal_outbound msg
    if ltb 1 (length msg.payloads)
        then (do z ← compress content; marshal_client_message true z)
        else marshal_client_message false content
