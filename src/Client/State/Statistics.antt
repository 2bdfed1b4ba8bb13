-- ===== src/Client/State/Statistics.antt =====
-- client.go: the statistics across a connection: `connectToNode`, then the reply to `setClient`.
use nkn_sdk_go.Base.{
  ℕ, ◌+◌, ◌≡◌, false, none, some, arith, if◌then◌else◌, List, Bool-cases, inl, inr,
}
use nkn_sdk_go.Base.Int.{ℤ}
use nkn_sdk_go.Base.Bytes.{Bytes}
use nkn_sdk_go.Client.State.{Client, Node, Stats, node_changed, adopt_connection, handle_set_client}

module _ {W : Type 0} (conn : ℕ) (node : Node) (t now : ℤ) (rpc : List Bytes) (hash : Bytes) where
  -- The client once it has a connection and the node has accepted it.
  abbrev pub reconnected : Client W → Client W
  reconnected c = (handle_set_client hash now (adopt_connection conn node t rpc c)).1

  -- A client that was never connected counts its first connection as a reconnection.
  first_connection_counted :
      (c : Client W)
      → c.is_closed ≡ false
      → c.node ≡ none
      → c.stats ≡ none
      → (reconnected c).stats
        ≡ some (record {
          connect_time = t;
          reconnect_count = 1;
          last_reconnect = now;
          send_failure_count = 0;
        })
  unfolding handle_set_client adopt_connection
  first_connection_counted c open_client never fresh = ground arith

  -- A client that connects to the node it was connected to keeps its connect time and its failures,
  -- and counts one reconnection; at another node it starts afresh, with one reconnection.
  pub reconnected_stats :
      (c : Client W) (prev : Node) (s : Stats)
      → c.is_closed ≡ false
      → c.node ≡ some prev
      → c.stats ≡ some s
      → (reconnected c).stats
        ≡ some (
            if node_changed prev node
            then record {
              connect_time = t;
              reconnect_count = 1;
              last_reconnect = now;
              send_failure_count = 0;
            }
            else record s { reconnect_count = s.reconnect_count + 1; last_reconnect = now })
  unfolding handle_set_client adopt_connection
  reconnected_stats c prev s open_client was had = elim (Bool-cases (node_changed prev node)) [
    | inl other ↦ rw other (ground arith)
    | inr same ↦ rw same (ground arith)
  ]
