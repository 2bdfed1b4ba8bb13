-- ===== src/Fixtures/Messages.antt =====
-- JSON with one byte for each member, a node's message that `setClient` was refused, and bytes of protobuf as
-- they are.
use nkn_sdk_go.Base.{ℕ, ◌≡◌, subst, ap, ◌∙◌, true, [], ◌∷◌, none}
use nkn_sdk_go.Base.Int.{ℤ, pos}
use nkn_sdk_go.Base.Bytes.{Bytes, Dict, text}
use nkn_sdk_go.Errors.{Outcome, ok, err, panic, external, ok-injective}
use nkn_sdk_go.Client.Handling.{Json, Wire, Reader, Frame, text_frame, set_client_action}
use nkn_sdk_go.Client.Handling.Jobs.{WireIsCalm}
use nkn_sdk_go.Client.Handling.Text.{JsonIsCalm, IsWhole, Has, needed}
use nkn_sdk_go.Client.Handling.Safety.{IsWholeFrame}
use nkn_sdk_go.Fixtures.Boxes.{toy_nacl}
use nkn_sdk_go.Fixtures.Codecs.{toy_codec}
use nkn_sdk_go.Fixtures.Clients.{toy_client, toy_node, toy_net}

-- The text of a message is its error code.
abbrev pub read_code : Bytes → Outcome ℤ
read_code [] = err (external (pos 1))
read_code (c ∷ cs) = ok (pos c)

abbrev pub toy_json : Json ℕ
toy_json = record {
  parse =
      λ b. ok ((text "Action", set_client_action) ∷ (text "Error", b) ∷ (text "Result", b) ∷ []);
  as_string = λ b. ok b;
  as_code = read_code;
  as_node = λ b. ok toy_node;
  as_block_hash = λ b. ok b;
  decode_hex = λ b. ok b;
  salt = λ w. (ok [], w);
  sign_hash = λ b. ok b;
  success = pos 0;
  wrong_node = pos 7;
}

abbrev pub toy_wire : Wire
toy_wire = record {
  inbound = λ b. ok none;
  unmarshal_inbound = λ b. ok ([], [], []);
  empty_elem = ok [];
  sha256 = λ b. b;
  sign = λ b. ok b;
  marshal_receipt = λ p s. ok s;
  marshal_client_message = λ b. ok b;
}

read_code-calm : (b : Bytes) → ¬ (read_code b ≡ panic)
read_code-calm [] h = cc
read_code-calm (c ∷ cs) h = cc

pub toy_json-IsCalm : JsonIsCalm toy_json
toy_json-IsCalm = record {
  calm_parse = λ b h. cc;
  calm_string = λ b h. cc;
  calm_code = read_code-calm;
  calm_node = λ b h. cc;
  calm_hash = λ b h. cc;
  calm_hex = λ b h. cc;
  calm_salt = λ w h. cc;
  calm_sign = λ b h. cc;
}

abbrev pub reader : Reader ℕ
reader = record {
  inbox = record { client = toy_client; waiting = []; allow_unencrypted = true };
  jobs = [];
}

-- `setClient` fails with the code 5.
abbrev pub refusal : Frame
refusal = text_frame (5 ∷ [])

abbrev pub refusal_members : Dict Bytes
refusal_members =
    (text "Action", set_client_action) ∷ (text "Error", 5 ∷ []) ∷ (text "Result", 5 ∷ []) ∷ []

members-IsWhole : IsWhole toy_json toy_net refusal_members
members-IsWhole = record {
  action_there = λ h. cc;
  error_there = λ h. cc;
  rest_there = λ x y action code hx ha hy hc.
      let same : 5 ∷ [] ≡ y = cc hy in
      let e : pos 5 ≡ code = ok-injective (ap read_code same ∙ hc) in
      subst (λ c. Has toy_json toy_net refusal_members (needed toy_json toy_net c action)) e tt;
}

pub refusal-IsWhole : IsWholeFrame toy_nacl toy_codec [] toy_json toy_wire toy_net refusal
refusal-IsWhole members h = subst (λ m. IsWhole toy_json toy_net m) (ok-injective h) members-IsWhole

pub toy_wire-IsCalm : WireIsCalm toy_wire
toy_wire-IsCalm = record {
  calm_elem = λ h. cc;
  calm_sign = λ b h. cc;
  calm_receipt = λ p s h. cc;
  calm_client_message = λ b h. cc;
}
