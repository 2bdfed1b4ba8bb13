-- ===== src/Client/Handling/Binary.antt =====
-- client.go: what the binary messages of a node can do to a client.
use nkn_sdk_go.Base.{Option, none, some, if◌then◌else◌}
use nkn_sdk_go.Base.Bytes.{Bytes}
use nkn_sdk_go.Action.{pure}
use nkn_sdk_go.Action.Keeps.{Keeps, >>=-Keeps, lift>>=-Keeps, if-Keeps}
use nkn_sdk_go.Message.{Nacl, Codec, is_nil}
use nkn_sdk_go.Client.State.{Client, Net}
use nkn_sdk_go.Client.Inbound.Stable.{IsStable, handle_inbound-Keeps}
use nkn_sdk_go.Client.Handling.{Wire, Reader, spawn, sends_receipt, handle_envelope, handle_binary}

module _ {W : Type 0} (nacl : Nacl W) (codec : Codec) (secret : Bytes) (wire : Wire) (net : Net W)
    {P : Client W → Type 0} (stable : IsStable P) where
  -- `P` of the client of a reader.
  abbrev pub OfReader : Reader W → Type 0
  OfReader r = P r.inbox.client

  handle_envelope-Keeps :
      (o : Option Bytes) → Keeps OfReader (handle_envelope nacl codec secret wire net o)
  unfolding handle_envelope
  handle_envelope-Keeps none = λ r h. h
  handle_envelope-Keeps (some content) =
      lift>>=-Keeps OfReader (wire.unmarshal_inbound content) _ λ (src, payload, prev_hash).
        >>=-Keeps OfReader (if is_nil prev_hash then pure tt else spawn (sends_receipt prev_hash)) _
          (if-Keeps OfReader (is_nil prev_hash) (pure tt) (spawn (sends_receipt prev_hash))
            (λ s k. k) (λ s k. k))
          λ u. lift>>=-Keeps OfReader (codec.unmarshal_envelope payload) _ λ envelope r h.
            handle_inbound-Keeps nacl codec secret stable
              (record { src = src; envelope = envelope }) r.inbox h

  -- Whatever the bytes of a binary message are, and also when its handling fails or panics.
  pub handle_binary-Keeps :
      (content : Bytes) → Keeps OfReader (handle_binary nacl codec secret wire net content)
  unfolding handle_binary
  handle_binary-Keeps content =
      lift>>=-Keeps OfReader (wire.inbound content) _ λ o. handle_envelope-Keeps o
