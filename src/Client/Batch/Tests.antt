-- ===== src/Client/Batch/Tests.antt =====
-- client.go: the batches of two messages.
use nkn_sdk_go.Base.{ℕ, ◌≡◌, refl, List, [], ◌∷◌, All}
use nkn_sdk_go.Base.Int.{pos, to_u32}
use nkn_sdk_go.Base.Bytes.{Bytes, text}
use nkn_sdk_go.Errors.{Outcome, ok, err, panic}
use nkn_sdk_go.Client.State.{Client}
use nkn_sdk_go.Client.Outbound.{OutboundMessage, sign_each, data_at, block_hash_of}
use nkn_sdk_go.Client.Batch.{batches_of_many, split_loop, new_outbound_message}
use nkn_sdk_go.Client.Batch.Sizes.{all_dests, all_payloads, FitsMessage}
use nkn_sdk_go.Client.Batch.Split.{batches_of_many-Fits}
use nkn_sdk_go.Fixtures.Boxes.{toy_nacl}
use nkn_sdk_go.Fixtures.Codecs.{toy_codec}
use nkn_sdk_go.Fixtures.Clients.{toy_client, toy_net, toy_signing}

abbrev dests : List Bytes
dests = text "bob" ∷ text "carol" ∷ []

abbrev messages : List Bytes
messages = text "for bob" ∷ text "for carol" ∷ []

abbrev made : Outcome (List OutboundMessage) × Client ℕ
made = batches_of_many toy_nacl toy_codec [] toy_signing toy_net (pos 0) dests messages toy_client

abbrev or_none : Outcome (List OutboundMessage) → List OutboundMessage
or_none (ok ms) = ms
or_none (err e) = []
or_none panic = []

batches_of_many-Fits_example :
    (all_dests (or_none made.0) ≡ dests)
    × (all_payloads (or_none made.0) ≡ messages)
    × All FitsMessage (or_none made.0)
unfolding batches_of_many split_loop new_outbound_message sign_each data_at block_hash_of to_u32
batches_of_many-Fits_example =
    batches_of_many-Fits toy_nacl toy_codec [] toy_signing toy_net (pos 0) dests messages toy_client
      made.1 (or_none made.0) (λ e. cc) refl refl
