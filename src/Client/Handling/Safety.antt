-- ===== src/Client/Handling/Safety.antt =====
-- client.go: what a message of a node, of either kind, can do to a client.
use nkn_sdk_go.Base.{◌≡◌, ◌≢◌, sym, subst, true, false, Bool-cases, ◌⊎◌, inl, inr, if◌then◌else◌}
use nkn_sdk_go.Base.Int.{ℤ}
use nkn_sdk_go.Base.Bytes.{Bytes, Dict}
use nkn_sdk_go.Errors.{Outcome, ok, panic}
use nkn_sdk_go.Message.{Nacl, Codec}
use nkn_sdk_go.Client.State.{Net}
use nkn_sdk_go.Client.State.Invariant.{IsValid, IsCalm}
use nkn_sdk_go.Client.Handling.{
  Json, Wire, Reader, Frame, text_frame, binary_frame, other_frame, handle_frame, handle_message,
}
use nkn_sdk_go.Client.Handling.Text.{JsonIsCalm, IsWhole, IsRefusal, handle_text-IsSafe}
use nkn_sdk_go.Client.Handling.Binary.{handle_binary-Keeps}
use nkn_sdk_go.Client.Inbound.Safety.{IsOpen-IsStable}

module _ {W : Type 0} (nacl : Nacl W) (codec : Codec) (secret : Bytes) (json : Json W) (wire : Wire)
    (net : Net W) where
  abbrev pub IsNotBinary : Frame → Type 0
  IsNotBinary (text_frame content) = Unit
  IsNotBinary (binary_frame content) = ⊥
  IsNotBinary other_frame = Unit

  -- A JSON message has all members that its handling reads.
  abbrev pub IsWholeFrame : Frame → Type 0
  IsWholeFrame (text_frame content) =
      (members : Dict Bytes) → json.parse content ≡ ok members → IsWhole json net members
  IsWholeFrame (binary_frame content) = Unit
  IsWholeFrame other_frame = Unit

  -- The frame says that `setClient` failed.
  abbrev pub IsRefusedFrame : Frame → Type 0
  IsRefusedFrame (text_frame content) = IsRefusal json net content
  IsRefusedFrame (binary_frame content) = ⊥
  IsRefusedFrame other_frame = ⊥

  -- A message that was handled: the client is well formed, it was closed before or by a refusal, and no
  -- other message than a binary one has made a panic.
  pub record IsSafe (frame : Frame) (r : Reader W) (s : Outcome (Unit {0}) × Reader W)
      : Type 0 where
    pub valid : IsValid s.1.inbox.client
    pub closed :
        s.1.inbox.client.is_closed ≡ true → (r.inbox.client.is_closed ≡ true) ⊎ IsRefusedFrame frame
    pub calm : IsNotBinary frame → s.0 ≢ panic

  handle_frame-IsSafe :
      (now : ℤ) (frame : Frame) (r : Reader W)
      → IsCalm net
      → JsonIsCalm json
      → IsValid r.inbox.client
      → r.inbox.client.is_closed ≡ false
      → IsWholeFrame frame
      → IsSafe frame r (handle_frame nacl codec secret json wire net now frame r)
  unfolding handle_frame
  handle_frame-IsSafe now (text_frame content) r calm_net calm v open_client whole =
      let (fine, v', why) =
        handle_text-IsSafe json net now content r calm_net calm v open_client whole in
      record { valid = v'; closed = λ h. inr (why h); calm = λ h. fine }
  handle_frame-IsSafe now (binary_frame content) r calm_net calm v open_client whole =
      let h =
        handle_binary-Keeps nacl codec secret wire net IsOpen-IsStable content r
          (record { valid = v; open_client = open_client }) in
      record { valid = h.valid; closed = λ k. cc (h.open_client, k); calm = λ k. elim k [ ] }
  handle_frame-IsSafe now other_frame r calm_net calm v open_client whole = record {
    valid = v;
    closed = λ k. inl k;
    calm = λ k h. cc;
  }

  -- Whatever a node sends, a well-formed client stays well formed, on a network and with a JSON package that
  -- do not panic, if a JSON message has the members that its handling reads. The client is closed only by
  -- the message that `setClient` failed, and a JSON message makes no panic.
  pub handle_message-IsSafe :
      (now : ℤ) (frame : Frame) (r : Reader W)
      → IsCalm net
      → JsonIsCalm json
      → IsValid r.inbox.client
      → IsWholeFrame frame
      → IsSafe frame r (handle_message nacl codec secret json wire net now frame r)
  unfolding handle_message
  handle_message-IsSafe now frame r calm_net calm v whole =
      let handled = handle_frame nacl codec secret json wire net now frame r in
      elim (Bool-cases r.inbox.client.is_closed) [
        | inl e ↦
            subst (λ c. IsSafe frame r (if c then (ok tt, r) else handled)) (sym e)
              (record { valid = v; closed = λ k. inl k; calm = λ k h. cc })
        | inr e ↦
            subst (λ c. IsSafe frame r (if c then (ok tt, r) else handled)) (sym e)
              (handle_frame-IsSafe now frame r calm_net calm v e whole)
      ]
