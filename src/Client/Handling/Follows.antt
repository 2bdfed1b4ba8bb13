-- ===== src/Client/Handling/Follows.antt =====
-- client.go: the connection and the requests of a client whose messages are handled.
use nkn_sdk_go.Base.{◌++◌, some}
use nkn_sdk_go.Base.Int.{ℤ}
use nkn_sdk_go.Base.Bytes.{Bytes, Dict, bytes_eq, text}
use nkn_sdk_go.Errors.{Outcome, ok, err, panic, coded}
use nkn_sdk_go.Action.{Action, pure, raise}
use nkn_sdk_go.Action.Keeps.{Keeps, >>=-Keeps, lift>>=-Keeps, if-Keeps, if-result}
use nkn_sdk_go.Channel.{try_send}
use nkn_sdk_go.Message.{Nacl, Codec}
use nkn_sdk_go.Client.State.{
  Client, Net, outside, challenge_do, close_client, write_message, handle_set_client,
}
use nkn_sdk_go.Client.State.Follows.{
  Follows, reconnect-Follows, outside-Follows, challenge_do-Follows, handle_set_client-Follows,
  close_client-Follows, write_message-Follows, record_send_failure-Follows,
}
use nkn_sdk_go.Client.Inbound.Stable.{IsStable}
use nkn_sdk_go.Client.Handling.{
  Json, Wire, Reader, Frame, text_frame, binary_frame, other_frame, on_client, ignored, counted,
  reconnects, sends_receipt, Job, set_client_action, update_action, auth_challenge_action, member,
  same_code, handle_error, answer_challenge, handle_action, handle_text, handle_frame,
  handle_message, send_receipt, run_job,
}
use nkn_sdk_go.Client.Handling.Binary.{handle_binary-Keeps}

pub Follows-IsStable : {W : Type 0} → (c : Client W) → IsStable (Follows c)
Follows-IsStable c = record {
  keys_kept = λ d k f. record {
    same_conn = f.same_conn;
    idle_before = f.idle_before;
    open_before = f.open_before;
  };
  messages_kept = λ d e same f. record {
    same_conn = f.same_conn;
    idle_before = f.idle_before;
    open_before = f.open_before;
  };
  events_kept = λ d e same f. record {
    same_conn = f.same_conn;
    idle_before = f.idle_before;
    open_before = f.open_before;
  };
}

module _ {W : Type 0} (c : Client W) where
  -- The client of the reader comes after `c`.
  abbrev pub Later : Reader W → Type 0
  Later r = Follows c r.inbox.client

  on_client-Later :
      {A : Type 0} (m : Action (Client W) A) → Keeps (Follows c) m → Keeps Later (on_client m)
  on_client-Later m k r f = k r.inbox.client f

  pub ignored-Follows :
      (r : Outcome (Unit {0}) × Client W) → Follows c r.1 → Follows c (ignored r).1
  ignored-Follows (ok u, d) f = f
  ignored-Follows (err e, d) f = f
  ignored-Follows (panic, d) f = f

module _ {W : Type 0} (c : Client W) (json : Json W) (net : Net W) where
  answer_challenge-Later :
      (members : Dict Bytes) → Keeps (Later c) (answer_challenge json net members)
  unfolding answer_challenge
  answer_challenge-Later members =
      lift>>=-Keeps (Later c) (member (text "Challenge") members) _ λ raw.
        lift>>=-Keeps (Later c) (json.as_string raw) _ λ challenge.
          lift>>=-Keeps (Later c) (json.decode_hex challenge) _ λ content.
            >>=-Keeps (Later c) (on_client (outside json.salt)) _
              (on_client-Later c (outside json.salt) (outside-Follows c json.salt))
              λ client_salt.
                lift>>=-Keeps (Later c) (json.sign_hash (content ++ client_salt)) _ λ signature.
                  on_client-Later c (challenge_do (λ e. try_send e (client_salt, signature)))
                    (challenge_do-Follows c (λ e. try_send e (client_salt, signature)))

  handle_action-Later :
      (now : ℤ) (action : Bytes) (members : Dict Bytes)
      → Keeps (Later c) (handle_action json net now action members)
  unfolding handle_action
  handle_action-Later now action members =
      if-Keeps (Later c) (bytes_eq action set_client_action) _ _
        (lift>>=-Keeps (Later c) (member (text "Result") members) _ λ raw.
          lift>>=-Keeps (Later c) (json.as_block_hash raw) _ λ hash.
            on_client-Later c (handle_set_client hash now) (handle_set_client-Follows c hash now))
        (if-Keeps (Later c) (bytes_eq action update_action) _ _
          (lift>>=-Keeps (Later c) (member (text "Result") members) _ λ raw.
            lift>>=-Keeps (Later c) (json.as_string raw) _ λ hash r f. record {
              same_conn = f.same_conn;
              idle_before = f.idle_before;
              open_before = f.open_before;
            })
          (if-Keeps (Later c) (bytes_eq action auth_challenge_action) _ (pure tt)
            (answer_challenge-Later members) (λ r f. f)))

  handle_error-Later :
      (code : ℤ) (action : Bytes) (members : Dict Bytes)
      → Keeps (Later c) (handle_error json net code action members)
  unfolding handle_error
  handle_error-Later code action members =
      if-Keeps (Later c) (same_code code json.wrong_node) _ _
        (lift>>=-Keeps (Later c) (member (text "Result") members) _
          λ raw. lift>>=-Keeps (Later c) (json.as_node raw) _ λ node r f. f)
        (if-Keeps (Later c) (bytes_eq action set_client_action) _ (raise (coded code))
          (>>=-Keeps (Later c) (on_client (λ d. ignored (close_client net d))) _
            (on_client-Later c (λ d. ignored (close_client net d))
              (λ d f. ignored-Follows c (close_client net d) (close_client-Follows c net d f)))
            λ u r f. f)
          (λ r f. f))

  handle_text-Later :
      (now : ℤ) (content : Bytes) → Keeps (Later c) (handle_text json net now content)
  unfolding handle_text
  handle_text-Later now content = lift>>=-Keeps (Later c) (json.parse content) _ λ members.
      lift>>=-Keeps (Later c) (member (text "Action") members) _ λ x.
        lift>>=-Keeps (Later c) (json.as_string x) _ λ action.
          lift>>=-Keeps (Later c) (member (text "Error") members) _ λ y.
            lift>>=-Keeps (Later c) (json.as_code y) _ λ code.
              if-Keeps (Later c) (same_code code json.success) _ _
                (handle_action-Later now action members) (handle_error-Later code action members)

module _ {W : Type 0} (c : Client W) (nacl : Nacl W) (codec : Codec) (secret : Bytes) (wire : Wire)
    (net : Net W) where
  counted-Follows :
      (r : Outcome (Unit {0}) × Client W)
      → Follows c r.1
      → Follows c (counted nacl codec secret wire net r).1
  counted-Follows (ok u, d) f = f
  counted-Follows (err e, d) f = record_send_failure-Follows c d f
  counted-Follows (panic, d) f = f

  send_receipt-Follows :
      (prev_hash : Bytes) → Keeps (Follows c) (send_receipt nacl codec secret wire net prev_hash)
  unfolding send_receipt
  send_receipt-Follows prev_hash = lift>>=-Keeps (Follows c) wire.empty_elem _ λ elem.
      lift>>=-Keeps (Follows c) (wire.sign (wire.sha256 (wire.sha256 prev_hash ++ elem))) _
        λ signature.
          lift>>=-Keeps (Follows c) (wire.marshal_receipt prev_hash signature) _ λ receipt.
            lift>>=-Keeps (Follows c) (wire.marshal_client_message receipt) _ λ buf d f.
              counted-Follows (write_message net buf d) (write_message-Follows c net buf d f)

  pub run_job-Follows : (j : Job) → Keeps (Follows c) (run_job nacl codec secret wire net j)
  unfolding run_job
  run_job-Follows (reconnects node) d f = reconnect-Follows c (some node) d f
  run_job-Follows (sends_receipt prev_hash) d f =
      ignored-Follows c (send_receipt nacl codec secret wire net prev_hash d)
        (send_receipt-Follows prev_hash d f)

  pub handle_message-Later :
      (json : Json W) (now : ℤ) (frame : Frame)
      → Keeps (Later c) (handle_message nacl codec secret json wire net now frame)
  unfolding handle_message handle_frame
  handle_message-Later json now (text_frame content) r f =
      if-result (Later c) r.inbox.client.is_closed _ _ f
        (handle_text-Later c json net now content r f)
  handle_message-Later json now (binary_frame content) r f =
      if-result (Later c) r.inbox.client.is_closed _ _ f
        (handle_binary-Keeps nacl codec secret wire net (Follows-IsStable c) content r f)
  handle_message-Later json now other_frame r f =
      if-result (Later c) r.inbox.client.is_closed _ _ f f
