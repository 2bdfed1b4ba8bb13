-- ===== src/Client/Handling/Jobs.antt =====
-- client.go: the goroutines that a message of a node has started.
use nkn_sdk_go.Base.{◌≢◌, ◌++◌, Option, some}
use nkn_sdk_go.Base.Bytes.{Bytes}
use nkn_sdk_go.Errors.{Outcome, ok, err, panic}
use nkn_sdk_go.Action.Fine.{Fine, lift-Fine}
use nkn_sdk_go.Message.{Nacl, Codec}
use nkn_sdk_go.Client.State.{Client, Node, Net, reconnect, write_message}
use nkn_sdk_go.Client.State.Invariant.{
  IsValid, IsCalm, reconnect-IsValid, write_message-IsValid, record_send_failure-IsValid,
}
use nkn_sdk_go.Client.Handling.{
  Wire, Job, reconnects, sends_receipt, ignored, counted, send_receipt, run_job,
}

-- The code for protobuf and signatures returns or gives an error, and never panics.
pub record WireIsCalm (wire : Wire) : Type 0 where
  pub calm_elem : wire.empty_elem ≢ panic
  pub calm_sign : (b : Bytes) → wire.sign b ≢ panic
  pub calm_receipt : (p s : Bytes) → wire.marshal_receipt p s ≢ panic
  pub calm_client_message : (b : Bytes) → wire.marshal_client_message b ≢ panic

module _ {W : Type 0} where
  pub reconnect-Fine :
      (target : Option Node) (c : Client W) → IsValid c → Fine IsValid (reconnect target c)
  reconnect-Fine target c v =
      let (fine, v', same) = reconnect-IsValid target c v in (λ h. cc (fine, h), v')

  ignored-Fine : (r : Outcome (Unit {0}) × Client W) → Fine IsValid r → Fine IsValid (ignored r)
  ignored-Fine (ok u, c) f = f
  ignored-Fine (err e, c) (calm, v) = (λ h. cc, v)
  ignored-Fine (panic, c) f = f

module _ {W : Type 0} (nacl : Nacl W) (codec : Codec) (secret : Bytes) (wire : Wire)
    (net : Net W) where
  counted-Fine :
      (r : Outcome (Unit {0}) × Client W)
      → Fine IsValid r
      → Fine IsValid (counted nacl codec secret wire net r)
  counted-Fine (ok u, c) f = f
  counted-Fine (err e, c) (calm, v) = (λ h. cc, record_send_failure-IsValid c v)
  counted-Fine (panic, c) f = f

  write_message-Fine :
      (buf : Bytes) (c : Client W) → IsCalm net → IsValid c → Fine IsValid (write_message net buf c)
  write_message-Fine buf c calm v =
      let (fine, v', same) = write_message-IsValid net buf c calm v in (fine, v')

  send_receipt-Fine :
      (prev_hash : Bytes) (c : Client W)
      → IsCalm net
      → WireIsCalm wire
      → IsValid c
      → Fine IsValid (send_receipt nacl codec secret wire net prev_hash c)
  unfolding send_receipt
  send_receipt-Fine prev_hash c calm w v =
      lift-Fine IsValid wire.empty_elem _ c w.calm_elem v λ elem.
        lift-Fine IsValid (wire.sign (wire.sha256 (wire.sha256 prev_hash ++ elem))) _ c
          (w.calm_sign _) v
          λ signature.
            lift-Fine IsValid (wire.marshal_receipt prev_hash signature) _ c (w.calm_receipt _ _) v
              λ receipt.
                lift-Fine IsValid (wire.marshal_client_message receipt) _ c
                  (w.calm_client_message _) v
                  λ buf. counted-Fine (write_message net buf c) (write_message-Fine buf c calm v)

  -- A goroutine that a message started makes no panic and leaves the client well formed.
  pub run_job-Fine :
      (j : Job) (c : Client W)
      → IsCalm net
      → WireIsCalm wire
      → IsValid c
      → Fine IsValid (run_job nacl codec secret wire net j c)
  unfolding run_job
  run_job-Fine (reconnects node) c calm w v = reconnect-Fine (some node) c v
  run_job-Fine (sends_receipt prev_hash) c calm w v =
      ignored-Fine (send_receipt nacl codec secret wire net prev_hash c)
        (send_receipt-Fine prev_hash c calm w v)
