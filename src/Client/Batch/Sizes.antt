-- ===== src/Client/Batch/Sizes.antt =====
-- client.go: the sizes of batches, and what a list of batches holds.
use nkn_sdk_go.Base.{
  ℕ, ◌+◌, ◌≤◌, ◌<◌, ◌≡◌, ◌≢◌, sym, ap, ◌∙◌, false, List, [], ◌∷◌, ◌++◌, map, length, ltb, arith,
  concat, append-nil, append_assoc,
}
use nkn_sdk_go.Base.Bytes.{Bytes}
use nkn_sdk_go.Client.Outbound.{OutboundMessage}
use nkn_sdk_go.Client.Batch.{max_client_message_size, size_of}

-- The size of a batch: of its messages, destinations and signatures.
abbrev pub batch_size : List Bytes → List Bytes → ℕ
batch_size (d ∷ ds) (p ∷ ps) = size_of d p + batch_size ds ps
batch_size ds ps = 0

-- A batch is not empty, has a message for each destination, and is not too large.
abbrev pub Fits : List Bytes → List Bytes → Type 0
Fits ds ps = (ds ≢ []) × (length ds ≡ length ps) × (batch_size ds ps ≤ max_client_message_size)

abbrev pub FitsMessage : OutboundMessage → Type 0
FitsMessage m = Fits m.dests m.payloads

abbrev pub all_dests : List OutboundMessage → List Bytes
all_dests ms = concat (map (λ m. m.dests) ms)

abbrev pub all_payloads : List OutboundMessage → List Bytes
all_payloads ms = concat (map (λ m. m.payloads) ms)

pub batch_size-append :
    (ds ps : List Bytes) (d p : Bytes)
    → length ds ≡ length ps
    → batch_size (ds ++ d ∷ []) (ps ++ p ∷ []) ≡ batch_size ds ps + size_of d p
batch_size-append [] [] d p h = omega arith
batch_size-append [] (q ∷ ps) d p h = absurd (omega arith)
batch_size-append (e ∷ ds) [] d p h = absurd (omega arith)
batch_size-append (e ∷ ds) (q ∷ ps) d p h = omega (arith, batch_size-append ds ps d p)

pub batch_size_pos : (ds ps : List Bytes) → 0 < batch_size ds ps → ds ≢ []
batch_size_pos [] ps h z = absurd (omega arith)
batch_size_pos (d ∷ ds) ps h z = cc

pub ltb-le : (a b : ℕ) → ltb a b ≡ false → b ≤ a
ltb-le a b h = ground arith

pub all_dests-append :
    (ms : List OutboundMessage) (m : OutboundMessage)
    → all_dests (ms ++ m ∷ []) ≡ all_dests ms ++ m.dests
all_dests-append [] m = append-nil m.dests
all_dests-append (n ∷ ms) m =
    ap (◌++◌ n.dests) (all_dests-append ms m) ∙ sym (append_assoc n.dests (all_dests ms) m.dests)

pub all_payloads-append :
    (ms : List OutboundMessage) (m : OutboundMessage)
    → all_payloads (ms ++ m ∷ []) ≡ all_payloads ms ++ m.payloads
all_payloads-append [] m = append-nil m.payloads
all_payloads-append (n ∷ ms) m =
    ap (◌++◌ n.payloads) (all_payloads-append ms m)
    ∙ sym (append_assoc n.payloads (all_payloads ms) m.payloads)
