-- ===== src/Client/Reply.antt =====
-- client.go: the function `reply` of a message that a client has received, which `Reply` of message.go
-- calls.
pub mod Answers
mod Tests
use nkn_sdk_go.Base.{Bool, true, false, List, [], ◌∷◌}
use nkn_sdk_go.Base.Int.{pos}
use nkn_sdk_go.Base.Bytes.{Bytes}
use nkn_sdk_go.Action.{Action, pure, ◌>>=◌}
use nkn_sdk_go.Message.{Nacl, Codec, Payload, Content, new_reply_payload}
use nkn_sdk_go.Client.State.{Client, Net, Message, outside}
use nkn_sdk_go.Client.Outbound.{Signing}
use nkn_sdk_go.Client.Batch.{send_timeout}

module _ {W : Type 0} (nacl : Nacl W) (codec : Codec) (secret : Bytes) (signing : Signing W)
    (net : Net W) (process_dests : List Bytes → Action W (List Bytes)) where
  -- The reply to a message that wants one.
  pub send_reply : Message → Content → Action (Client W) (Unit {0})
  send_reply msg content = do
    payload ← outside (new_reply_payload nacl codec content msg.message_id)
    send_timeout nacl codec secret signing net process_dests (msg.src ∷ []) payload msg.encrypted
        (pos 0)

  abbrev pub reply_unless : Bool → Message → Content → Action (Client W) (Unit {0})
  reply_unless true msg content = pure tt
  reply_unless false msg content = send_reply msg content

  -- `msg.reply`
  pub reply : Message → Content → Action (Client W) (Unit {0})
  unfolding send_reply
  reply msg content = reply_unless msg.no_reply msg content
