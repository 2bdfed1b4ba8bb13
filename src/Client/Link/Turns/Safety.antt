-- ===== src/Client/Link/Turns/Safety.antt =====
-- client.go: panics in the turns of a running client, for the turns that handle no message.
use nkn_sdk_go.Base.{ℕ, ◌≡◌, ◌≢◌, ◌∙◌, Bool, false, Option, none, some, arith}
use nkn_sdk_go.Base.Int.{ℤ}
use nkn_sdk_go.Base.Bytes.{Bytes}
use nkn_sdk_go.Errors.{Outcome, ok, err, panic}
use nkn_sdk_go.Action.{Action, pure}
use nkn_sdk_go.Action.Fine.{Fine, continue-Fine, if-Fine, ok-Fine}
use nkn_sdk_go.Channel.{Emitter, Received, value, nil_value, blocked, next}
use nkn_sdk_go.Channel.Fifo.{next-closed}
use nkn_sdk_go.Client.State.{Client, Net, Handler, waiting, busy, outside, adopt_connection}
use nkn_sdk_go.Client.State.Invariant.{IsValid, IsCalm}
use nkn_sdk_go.Client.Handling.{on_client}
use nkn_sdk_go.Client.Handling.Jobs.{reconnect-Fine}
use nkn_sdk_go.Client.Link.{
  Link, Socket, Phase, resting, dialing, starting, returning, ended, logged, on_reader, client_of,
  ask_again, or_reconnect, set_pinger, take_from, return_from,
}
use nkn_sdk_go.Client.Link.Turns.{
  ping, request, with_proof, greet, adopt_in, close_previous, start_from,
}

pub record SocketIsCalm {W : Type 0} (socket : Socket W) : Type 0 where
  pub calm_request :
      (n : ℕ) (address : Bytes) (proof : Option (Bytes × Bytes)) (w : W)
      → (socket.write_request n address proof w).0 ≢ panic
  pub calm_ping : (n : ℕ) (w : W) → (socket.write_ping n w).0 ≢ panic

pub logged-Fine {ℓ μ} :
    {S : Type ℓ} (V : S → Type μ) (r : Outcome (Unit {0}) × S) → Fine V r → Fine V (logged r)
logged-Fine V (ok u, s) f = f
logged-Fine V (err e, s) (calm, v) = (λ h. cc, v)
logged-Fine V (panic, s) f = f

module _ {W : Type 0} where
  -- The client of a link is well formed.
  abbrev pub HasValid : Link W → Type 0
  HasValid l = IsValid (client_of l)

  outside-IsValid :
      {A : Type 0} (m : Action W A) (c : Client W) → IsValid c → IsValid (outside m c).1
  outside-IsValid m c v = ground (arith, v)

  -- A call outside that does not panic.
  outside-Fine :
      {A : Type 0} (m : Action W A) (l : Link W)
      → (m (client_of l).keys.world).0 ≢ panic
      → HasValid l
      → Fine HasValid (on_reader (on_client (outside m)) l)
  outside-Fine m l calm v = (calm, outside-IsValid m (client_of l) v)

  pub ask_again-Fine : (l : Link W) → HasValid l → Fine HasValid (ask_again l)
  ask_again-Fine l v = reconnect-Fine none (client_of l) v

  or_reconnect-Fine :
      (r : Outcome (Unit {0}) × Link W) (left : Action (Link W) (Unit {0}))
      → ((s : Link W) → HasValid s → Fine HasValid (left s))
      → Fine HasValid r
      → Fine HasValid (or_reconnect r left)
  or_reconnect-Fine (ok u, l) left k f = f
  or_reconnect-Fine (err e, l) left k (calm, v) =
      continue-Fine HasValid (ask_again l) _ (ask_again-Fine l v) λ u. k
  or_reconnect-Fine (panic, l) left k f = f

  pub take_from-Fine :
      (p : Phase) (h : Handler) (l : Link W) → HasValid l → Fine HasValid (take_from p h l)
  take_from-Fine resting (busy target) l v = (λ h. cc, v)
  take_from-Fine resting waiting l v =
      if-Fine HasValid (client_of l).reconnect_closed _ _ (λ h. cc, v) (ok-Fine HasValid tt l v)
  take_from-Fine (dialing k) h l v = ok-Fine HasValid tt l v
  take_from-Fine (starting p n) h l v = ok-Fine HasValid tt l v
  take_from-Fine returning h l v = ok-Fine HasValid tt l v
  take_from-Fine ended h l v = ok-Fine HasValid tt l v

  pub return_from-Fine : (p : Phase) (l : Link W) → HasValid l → Fine HasValid (return_from p l)
  return_from-Fine returning l v = (
    λ h. cc,
    record {
      connect_closed = v.connect_closed;
      message_closed = v.message_closed;
      event_closed = v.event_closed;
      reconnect_closed_eq = v.reconnect_closed_eq;
      challenge_closed = v.challenge_closed;
      has_conn = v.has_conn;
    },
  )
  return_from-Fine resting l v = ok-Fine HasValid tt l v
  return_from-Fine (dialing k) l v = ok-Fine HasValid tt l v
  return_from-Fine (starting p n) l v = ok-Fine HasValid tt l v
  return_from-Fine ended l v = ok-Fine HasValid tt l v

module _ {W : Type 0} (socket : Socket W) (net : Net W) (address : Bytes) (calm_net : IsCalm net)
    (calm_socket : SocketIsCalm socket) where
  pub ping-Fine : (n : ℕ) (l : Link W) → HasValid l → Fine HasValid (ping socket net address n l)
  unfolding ping
  ping-Fine n l v =
      if-Fine HasValid (l.pingers n) _ _
        (or_reconnect-Fine (on_reader (on_client (outside (socket.write_ping n))) l)
          (set_pinger n false) (λ s w. (λ h. cc, w))
          (outside-Fine (socket.write_ping n) l (calm_socket.calm_ping n _) v))
        (ok-Fine HasValid tt l v)

  request-Fine :
      (n : ℕ) (proof : Option (Bytes × Bytes)) (l : Link W)
      → HasValid l
      → Fine HasValid (request socket net address n proof l)
  request-Fine n proof l v =
      let m = socket.write_request n address proof in
      or_reconnect-Fine (on_reader (on_client (outside m)) l) (pure tt)
        (λ s w. ok-Fine HasValid tt s w)
        (outside-Fine m l (calm_socket.calm_request n address proof _) v)

  -- The salt and the signature, from a channel that is as open as before.
  with_proof-Fine :
      (n : ℕ) (r : Received (Bytes × Bytes) × Emitter (Bytes × Bytes)) (l : Link W)
      → HasValid l
      → r.1.closed ≡ (client_of l).challenge_signature.closed
      → Fine HasValid (with_proof socket net address n r l)
  with_proof-Fine n (value x, e) l v same = request-Fine n (some x) _ (record {
    connect_closed = v.connect_closed;
    message_closed = v.message_closed;
    event_closed = v.event_closed;
    reconnect_closed_eq = v.reconnect_closed_eq;
    challenge_closed = same ∙ v.challenge_closed;
    has_conn = v.has_conn;
  })
  with_proof-Fine n (nil_value, e) l v same = request-Fine n none l v
  with_proof-Fine n (blocked, e) l v same = ok-Fine HasValid tt l v

  pub greet-Fine :
      (n : ℕ) (timed_out : Bool) (l : Link W)
      → HasValid l
      → Fine HasValid (greet socket net address n timed_out l)
  unfolding greet next
  greet-Fine n timed_out l v =
      if-Fine HasValid (l.greeters n) _ _
        (if-Fine HasValid timed_out _ _ (request-Fine n none l v) (
          with_proof-Fine n (next (client_of l).challenge_signature) l v
            (next-closed (client_of l).challenge_signature)))
        (ok-Fine HasValid tt l v)

  pub adopt_in-Fine :
      (p : Phase) (now : ℤ) (answer : Outcome Bytes) (l : Link W)
      → HasValid l
      → Fine HasValid (adopt_in socket net address p now answer l)
  unfolding adopt_connection
  adopt_in-Fine (dialing (some node)) now answer l v = (
    λ h. cc,
    record {
      connect_closed = v.connect_closed;
      message_closed = v.message_closed;
      event_closed = v.event_closed;
      reconnect_closed_eq = v.reconnect_closed_eq;
      challenge_closed = v.challenge_closed;
      has_conn = λ h. cc;
    },
  )
  adopt_in-Fine (dialing none) now answer l v = ok-Fine HasValid tt l v
  adopt_in-Fine resting now answer l v = ok-Fine HasValid tt l v
  adopt_in-Fine (starting p n) now answer l v = ok-Fine HasValid tt l v
  adopt_in-Fine returning now answer l v = ok-Fine HasValid tt l v
  adopt_in-Fine ended now answer l v = ok-Fine HasValid tt l v

  close_previous-Fine :
      (prev : Option ℕ) (l : Link W)
      → HasValid l
      → Fine HasValid (close_previous socket net address prev l)
  close_previous-Fine none l v = ok-Fine HasValid tt l v
  close_previous-Fine (some p) l v =
      logged-Fine HasValid (on_reader (on_client (outside (net.close_conn p))) l)
        (outside-Fine (net.close_conn p) l (calm_net.calm_close p _) v)

  pub start_from-Fine :
      (p : Phase) (l : Link W) → HasValid l → Fine HasValid (start_from socket net address p l)
  start_from-Fine (starting prev n) l v =
      continue-Fine HasValid (close_previous socket net address prev l) _
        (close_previous-Fine prev l v) λ u s w. (λ h. cc, w)
  start_from-Fine resting l v = ok-Fine HasValid tt l v
  start_from-Fine (dialing k) l v = ok-Fine HasValid tt l v
  start_from-Fine returning l v = ok-Fine HasValid tt l v
  start_from-Fine ended l v = ok-Fine HasValid tt l v
