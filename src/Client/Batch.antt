-- ===== src/Client/Batch.antt =====
-- client.go: `newPayloads`, `newOutboundMessage`, `newClientMessage` and `sendTimeout`: encrypting a
-- payload for the destinations, splitting the messages into batches that a node accepts, and writing
-- the batches.
pub mod Sizes
pub mod Split
mod Tests
use nkn_sdk_go.Base.{
  ℕ, zero, suc, ◌+◌, ◌%◌, ◌^◌, ◌≡◌, Bool, true, false, List, [], ◌∷◌, ◌++◌, Option, none, some,
  length, ltb, if◌then◌else◌, get_elem?,
}
use nkn_sdk_go.Base.Int.{ℤ, pos, negsuc, to_u32}
use nkn_sdk_go.Base.Bytes.{Bytes}
use nkn_sdk_go.Errors.{
  Outcome, ok, err, panic, message_oversize, no_destination, invalid_pubkey_or_name,
  invalid_destination,
}
use nkn_sdk_go.Action.{Action, pure, raise, lift, gets, modify, ◌>>=◌, ◌>>◌, raise_if}
use nkn_sdk_go.Message.{Nacl, Codec, Payload, is_nil}
use nkn_sdk_go.Client.Keys.{Keys}
use nkn_sdk_go.Client.Encryption.{encrypt_payload}
use nkn_sdk_go.Client.Outbound.{
  OutboundMessage, Signing, sign_each, block_hash_of, client_message_bytes,
}
use nkn_sdk_go.Client.State.{Client, Net, outside, write_message, record_send_failure}

-- `maxClientMessageSize`
abbrev pub max_client_message_size : ℕ
max_client_message_size = 4_000_000

-- `ed25519.SignatureSize`
abbrev pub signature_size : ℕ
signature_size = 64

-- A call on the keys of a client.
abbrev pub on_keys : {W A : Type 0} → Action (Keys W) A → Action (Client W) A
on_keys m c = let (o, k) = m c.keys in (o, record c { keys = k })

-- The size of one message in a batch.
abbrev pub size_of : Bytes → Bytes → ℕ
size_of dest pld = length pld + length dest + signature_size

module _ {W : Type 0} (nacl : Nacl W) (codec : Codec) (secret : Bytes) (signing : Signing W)
    (net : Net W) where
  open signing use {
    decode_hex, rand_uint32, sign, marshal_outbound, compress, marshal_client_message,
  }

  -- `newPayloads`: one message for each destination, or a single one that is not encrypted.
  unfoldable pub new_payloads : List Bytes → Payload → Bool → Action (Client W) (List Bytes)
  new_payloads dests payload true = on_keys (encrypt_payload nacl codec secret payload dests)
  new_payloads dests payload false = do
    payload_data ← lift (codec.marshal_payload payload)
    content ← lift (
        codec.marshal_envelope
          record { payload = payload_data; encrypted = false; nonce = []; encrypted_key = [] })
    pure (content ∷ [])

  abbrev node_key : Client W → Outcome Bytes
  node_key c = elim c.node [ none ↦ panic | some node ↦ decode_hex node.pub_key ]

  abbrev draw_nonce : Action (Client W) ℕ
  draw_nonce = outside (λ w. let (n, v) = rand_uint32 w in (ok n, v))

  -- `newOutboundMessage`. With no node it reads through a nil pointer.
  unfoldable pub new_outbound_message :
      List Bytes → List Bytes → ℤ → Action (Client W) OutboundMessage
  new_outbound_message dests plds max_holding = do
    node_pk ← (λ c. (node_key c, c))
    nonce ← draw_nonce
    hash ← (λ c. (block_hash_of codec signing c.sig_chain_block_hash, c))
    signatures ← lift (sign_each codec signing node_pk hash nonce plds 0 dests)
    pure record {
      dests = dests;
      payloads = plds;
      max_holding_seconds = to_u32 max_holding;
      block_hash = hash;
      nonce = nonce;
      signatures = signatures;
    }

  -- The loop of `sendTimeout` over the payloads, on `destList`, `pldList` and `totalSize`: the
  -- batches that are complete, and the two lists of the last one.
  pub split_loop :
      ℤ
      → List Bytes
      → List Bytes
      → List Bytes
      → List Bytes
      → ℕ
      → Action (Client W) (List OutboundMessage × List Bytes × List Bytes)
  split_loop holding dests [] dest_list pld_list total c = (ok ([], dest_list, pld_list), c)
  split_loop holding [] (pld ∷ plds) dest_list pld_list total c = (panic, c)
  split_loop holding (dest ∷ dests) (pld ∷ plds) dest_list pld_list total c =
      let size = size_of dest pld in
      let extend =
        split_loop holding dests plds (dest_list ++ dest ∷ []) (pld_list ++ pld ∷ []) (total + size)
          c in
      let flush =
        (do
          msg ← new_outbound_message dest_list pld_list holding
          (msgs, ds, ps) ← split_loop holding dests plds (dest ∷ []) (pld ∷ []) size
          pure (msg ∷ msgs, ds, ps))
          c in
      if ltb max_client_message_size size
      then (err message_oversize, c)
      else if ltb max_client_message_size (total + size)
      then flush
      else extend

  -- The outbound messages of `sendTimeout` for payloads of their own.
  pub batches_of_many : ℤ → List Bytes → List Bytes → Action (Client W) (List OutboundMessage)
  unfolding split_loop
  batches_of_many holding dests plds = do
    (msgs, dest_list, pld_list) ← split_loop holding dests plds [] [] 0
    last ← new_outbound_message dest_list pld_list holding
    pure (msgs ++ last ∷ [])

  abbrev pub sum_of_dests : List Bytes → ℕ
  sum_of_dests [] = 0
  sum_of_dests (d ∷ ds) = length d + signature_size + sum_of_dests ds

  -- The outbound message of `sendTimeout` for one payload; `plds[0]` panics where there is none.
  unfoldable pub batch_of_one :
      ℤ → List Bytes → List Bytes → Action (Client W) (List OutboundMessage)
  batch_of_one holding dests [] = lift panic
  batch_of_one holding dests (p ∷ ps) =
      if ltb max_client_message_size (length p + sum_of_dests dests)
      then raise message_oversize
      else do msg ← new_outbound_message dests (p ∷ ps) holding; pure (msg ∷ [])

  -- Both branches.
  unfoldable pub batches : ℤ → List Bytes → List Bytes → Action (Client W) (List OutboundMessage)
  batches holding dests plds =
      if ltb 1 (length plds)
      then batches_of_many holding dests plds
      else batch_of_one holding dests plds

  -- A write that fails is counted, and ends the send with its error.
  abbrev pub or_count_failure : Outcome (Unit {0}) × Client W → Outcome (Unit {0}) × Client W
  or_count_failure (ok u, c) = (ok u, c)
  or_count_failure (err e, c) = (err e, record_send_failure c)
  or_count_failure (panic, c) = (panic, c)

  -- The last loop of `sendTimeout`.
  unfoldable pub write_each : List OutboundMessage → Action (Client W) (Unit {0})
  write_each [] c = (ok tt, c)
  write_each (msg ∷ msgs) c =
      (do
        buf ← lift (client_message_bytes codec signing msg)
        (λ s. or_count_failure (write_message net buf s))
        write_each msgs)
        c

  -- `if maxHoldingSeconds < 0 { maxHoldingSeconds = 0 }`
  abbrev pub at_least_zero : ℤ → ℤ
  at_least_zero (pos n) = pos n
  at_least_zero (negsuc n) = pos 0

  -- `sendTimeout` for destinations that `processDests` has answered.
  unfoldable pub send_processed : List Bytes → Payload → Bool → ℤ → Action (Client W) (Unit {0})
  send_processed [] payload encrypted holding = pure tt
  send_processed (d ∷ dests) payload encrypted holding = do
    plds ← new_payloads (d ∷ dests) payload encrypted
    msgs ← batches holding (d ∷ dests) plds
    write_each msgs

  -- `sendTimeout`; `process_dests` stands for `processDests` with what it asks of the network.
  unfoldable pub send_timeout :
      (List Bytes → Action W (List Bytes))
      → List Bytes
      → Payload
      → Bool
      → ℤ
      → Action (Client W) (Unit {0})
  unfolding send_processed
  send_timeout process_dests dests payload encrypted holding = do
    ds ← outside (process_dests dests)
    send_processed ds payload encrypted (at_least_zero holding)
