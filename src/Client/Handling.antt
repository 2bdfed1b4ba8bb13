-- ===== src/Client/Handling.antt =====
-- client.go: `handleMessage` on the bytes that a node sends, and `sendReceipt`. A goroutine that
-- `handleMessage` starts is a job, which runs at any later time. JSON and protobuf are parameters.
pub mod Steps
pub mod Text
pub mod Binary
pub mod Safety
pub mod Jobs
pub mod Follows
mod Tests
use nkn_sdk_go.Base.{
  ℕ, Bool, true, false, not, ◌&&◌, List, [], ◌∷◌, ◌++◌, Option, none, some, if◌then◌else◌,
}
use nkn_sdk_go.Base.Int.{ℤ, leb_ℤ}
use nkn_sdk_go.Base.Bytes.{Bytes, Dict, lookup, bytes_eq, text}
use nkn_sdk_go.Errors.{Outcome, ok, err, panic, coded}
use nkn_sdk_go.Action.{Action, pure, raise, lift, modify, ◌>>=◌, ◌>>◌}
use nkn_sdk_go.Channel.{Emitter, try_send}
use nkn_sdk_go.Message.{Nacl, Codec, is_nil}
use nkn_sdk_go.Client.State.{
  Client, Net, Node, outside, challenge_do, close_client, reconnect, write_message,
  handle_set_client, record_send_failure, send_challenge,
}
use nkn_sdk_go.Client.Inbound.{Inbox, InboundMessage, handle_inbound}

-- `setClientAction`, `authChallengeAction`, and the action that has no constant.
abbrev pub set_client_action : Bytes
set_client_action = text "setClient"

abbrev pub auth_challenge_action : Bytes
auth_challenge_action = text "authChallenge"

abbrev pub update_action : Bytes
update_action = text "updateSigChainBlockHash"

-- What is called of JSON, of hexadecimal decoding and of the package for signatures. `parse` gives the
-- members of an object that are not null, each undecoded.
pub record Json (W : Type 0) : Type 0 where
  pub parse : Bytes → Outcome (Dict Bytes)
  pub as_string : Bytes → Outcome Bytes
  pub as_code : Bytes → Outcome ℤ
  pub as_node : Bytes → Outcome Node
  pub as_block_hash : Bytes → Outcome Bytes
  pub decode_hex : Bytes → Outcome Bytes
  pub salt : Action W Bytes
  pub sign_hash : Bytes → Outcome Bytes
  pub success : ℤ
  pub wrong_node : ℤ

-- What is called of protobuf for a binary message and for a receipt. `inbound` is whether a message of
-- the node is an inbound message, with its bytes; `unmarshal_inbound` gives the source, the payload and
-- the previous hash.
pub record Wire : Type 0 where
  pub inbound : Bytes → Outcome (Option Bytes)
  pub unmarshal_inbound : Bytes → Outcome (Bytes × Bytes × Bytes)
  pub empty_elem : Outcome Bytes
  pub sha256 : Bytes → Bytes
  pub sign : Bytes → Outcome Bytes
  pub marshal_receipt : Bytes → Bytes → Outcome Bytes
  pub marshal_client_message : Bytes → Outcome Bytes

-- A goroutine that a message started.
pub data Job : Type 0 where
  reconnects : Node → Job
  sends_receipt : Bytes → Job

-- The numbers are equal.
abbrev pub same_code : ℤ → ℤ → Bool
same_code a b = leb_ℤ a b && leb_ℤ b a

-- `*msg[name]`: a member that is missing, or null, is a nil pointer.
abbrev pub member_of : Option Bytes → Outcome Bytes
member_of none = panic
member_of (some raw) = ok raw

abbrev pub member : Bytes → Dict Bytes → Outcome Bytes
member name members = member_of (lookup name members)

-- A client and the goroutines that its messages have started.
pub record Reader (W : Type 0) : Type 0 where
  pub inbox : Inbox W
  pub jobs : List Job

module _ {W : Type 0} where
  abbrev pub on_inbox : {A : Type 0} → Action (Inbox W) A → Action (Reader W) A
  on_inbox m r = let (o, b) = m r.inbox in (o, record r { inbox = b })

  abbrev pub on_client : {A : Type 0} → Action (Client W) A → Action (Reader W) A
  on_client m r =
      let (o, c) = m r.inbox.client in (o, record r { inbox = record r.inbox { client = c } })

  abbrev pub spawn : Job → Action (Reader W) (Unit {0})
  spawn j = modify (λ r. record r { jobs = r.jobs ++ j ∷ [] })

  -- A call whose error is ignored.
  abbrev pub ignored : Outcome (Unit {0}) × Client W → Outcome (Unit {0}) × Client W
  ignored (ok u, c) = (ok tt, c)
  ignored (err e, c) = (ok tt, c)
  ignored (panic, c) = (panic, c)

module _ {W : Type 0} (json : Json W) (net : Net W) where
  open json use {
    parse, as_string, as_code, as_node, as_block_hash, decode_hex, salt, sign_hash, success,
    wrong_node,
  }

  -- `if errCode != errcode.SUCCESS { ... }`
  pub handle_error : ℤ → Bytes → Dict Bytes → Action (Reader W) (Unit {0})
  handle_error code action members =
      if same_code code wrong_node
      then (do
        raw_node ← lift (member (text "Result") members)
        node ← lift (as_node raw_node)
        spawn (reconnects node)
        raise (coded code))
      else if bytes_eq action set_client_action
      then (do on_client (λ c. ignored (close_client net c)); raise (coded code))
      else raise (coded code)

  -- The challenge of the node is answered through the channel that the goroutine for setClient reads; no
  -- lock is held, and State/Lifecycle has the send as a step of its own.
  pub answer_challenge : Dict Bytes → Action (Reader W) (Unit {0})
  answer_challenge members = do
    raw_challenge ← lift (member (text "Challenge") members)
    challenge ← lift (as_string raw_challenge)
    content ← lift (decode_hex challenge)
    client_salt ← on_client (outside salt)
    signature ← lift (sign_hash (content ++ client_salt))
    on_client (send_challenge (client_salt, signature))

  -- `switch action { ... }`
  pub handle_action : ℤ → Bytes → Dict Bytes → Action (Reader W) (Unit {0})
  unfolding answer_challenge
  handle_action now action members =
      if bytes_eq action set_client_action
      then (do
        raw_hash ← lift (member (text "Result") members)
        hash ← lift (as_block_hash raw_hash)
        on_client (handle_set_client hash now))
      else if bytes_eq action update_action
      then (do
        raw_hash ← lift (member (text "Result") members)
        hash ← lift (as_string raw_hash)
        on_client (modify (λ c. record c { sig_chain_block_hash = hash })))
      else if bytes_eq action auth_challenge_action
      then answer_challenge members
      else pure tt

  -- The case `websocket.TextMessage`; `now` is the time of a connection.
  pub handle_text : ℤ → Bytes → Action (Reader W) (Unit {0})
  unfolding handle_error handle_action
  handle_text now content = do
    members ← lift (parse content)
    raw_action ← lift (member (text "Action") members)
    action ← lift (as_string raw_action)
    raw_code ← lift (member (text "Error") members)
    code ← lift (as_code raw_code)
    if same_code code success
        then handle_action now action members
        else handle_error code action members

module _ {W : Type 0} (nacl : Nacl W) (codec : Codec) (secret : Bytes) (wire : Wire)
    (net : Net W) where
  open wire use {
    inbound, unmarshal_inbound, empty_elem, sha256, sign, marshal_receipt, marshal_client_message,
  }

  -- A message of the case `ClientMessageType_INBOUND_MESSAGE`; any other is ignored.
  pub handle_envelope : Option Bytes → Action (Reader W) (Unit {0})
  handle_envelope none = pure tt
  handle_envelope (some content) = do
    (src, payload, prev_hash) ← lift (unmarshal_inbound content)
    if is_nil prev_hash then pure tt else spawn (sends_receipt prev_hash)
    envelope ← lift (codec.unmarshal_envelope payload)
    on_inbox (handle_inbound nacl codec secret (record { src = src; envelope = envelope }))

  -- The case `websocket.BinaryMessage`.
  pub handle_binary : Bytes → Action (Reader W) (Unit {0})
  unfolding handle_envelope
  handle_binary content = do kind ← lift (inbound content); handle_envelope kind

  -- A write that fails is counted.
  abbrev pub counted : Outcome (Unit {0}) × Client W → Outcome (Unit {0}) × Client W
  counted (ok u, c) = (ok tt, c)
  counted (err e, c) = (err e, record_send_failure c)
  counted (panic, c) = (panic, c)

  -- `sendReceipt`
  pub send_receipt : Bytes → Action (Client W) (Unit {0})
  send_receipt prev_hash = do
    elem ← lift empty_elem
    signature ← lift (sign (sha256 (sha256 prev_hash ++ elem)))
    receipt ← lift (marshal_receipt prev_hash signature)
    buf ← lift (marshal_client_message receipt)
    (λ c. counted (write_message net buf c))

  -- A goroutine runs; its error is logged.
  pub run_job : Job → Action (Client W) (Unit {0})
  unfolding send_receipt
  run_job (reconnects node) c = reconnect (some node) c
  run_job (sends_receipt prev_hash) c = ignored (send_receipt prev_hash c)

-- `websocket.TextMessage`, `websocket.BinaryMessage`, and the other kinds.
pub data Frame : Type 0 where
  text_frame : Bytes → Frame
  binary_frame : Bytes → Frame
  other_frame : Frame

module _ {W : Type 0} (nacl : Nacl W) (codec : Codec) (secret : Bytes) (json : Json W) (wire : Wire)
    (net : Net W) where
  -- `handleMessage`
  pub handle_frame : ℤ → Frame → Action (Reader W) (Unit {0})
  unfolding handle_text handle_binary
  handle_frame now (text_frame content) = handle_text json net now content
  handle_frame now (binary_frame content) = handle_binary nacl codec secret wire net content
  handle_frame now other_frame = pure tt

  pub handle_message : ℤ → Frame → Action (Reader W) (Unit {0})
  unfolding handle_frame
  handle_message now frame r =
      if r.inbox.client.is_closed then (ok tt, r) else handle_frame now frame r
