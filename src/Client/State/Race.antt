-- ===== src/Client/State/Race.antt =====
-- client.go: `Reconnect` tests `IsClosed` and then sends on the reconnect channel, and holds no lock
-- between the two.
use nkn_sdk_go.Base.{◌≡◌, true, false, Option, ◌∙◌, ap, not}
use nkn_sdk_go.Errors.{panic}
use nkn_sdk_go.Client.State.{
  Client, Node, Net, close_client, reconnect_check, reconnect_send, connecting,
}
use nkn_sdk_go.Client.State.Invariant.{IsValid, IsCalm, close_client-IsValid}

module _ {W : Type 0} (net : Net W) where
  -- When another goroutine closes the client between the test and the send, the test has passed and
  -- the send panics, in every open client and on every calm network.
  pub reconnect_send-panic :
      (target : Option Node) (c : Client W)
      → IsCalm net
      → IsValid c
      → c.is_closed ≡ false
      → ((reconnect_check c).0 ≡ true)
        × ((reconnect_send target (close_client net (reconnect_check c).1).1).0 ≡ panic)
  unfolding reconnect_check reconnect_send
  reconnect_send-panic target c calm v open_client =
      let c' : Client W = record c { state = connecting } in
      let v' : IsValid c' = record {
        connect_closed = v.connect_closed;
        message_closed = v.message_closed;
        event_closed = v.event_closed;
        reconnect_closed_eq = v.reconnect_closed_eq;
        challenge_closed = v.challenge_closed;
        has_conn = v.has_conn;
      } in
      let (fine, valid, closed) = close_client-IsValid net c' calm v' in
      (ap not open_client, rw (valid.reconnect_closed_eq ∙ closed))
