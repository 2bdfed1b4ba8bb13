-- ===== src/Rpc/Methods.antt =====
-- rpc.go: the functions of the package that call a method of a node, `GetNonceContext` and the others.
-- Those without `Context` in their names call these with the background context.
use nkn_sdk_go.Base.{ℕ, Bool, ◌&&◌, ltb, if◌then◌else◌}
use nkn_sdk_go.Base.Int.{ℤ, of_bits}
use nkn_sdk_go.Base.Bytes.{Bytes}
use nkn_sdk_go.Errors.{Outcome}
use nkn_sdk_go.Action.{Action, pure, lift, ◌>>=◌}
use nkn_sdk_go.Client.State.{Node}
use nkn_sdk_go.Rpc.Requests.{
  RpcConfig, NodeState, Subscription, Registrant, SubscribersQuery, Request, Answer, get_ws_addr,
  get_wss_addr, get_nonce_by_addr, get_balance_by_addr, get_latest_block_height, get_node_state,
  get_subscribers, get_subscription, get_subscribers_count, get_peer_addr, get_registrant,
  send_raw_transaction,
}
use nkn_sdk_go.Rpc.Listing.{Subscribers, read_subscribers}

-- `RPCCall` for a config and a request, and the packages that the functions use.
pub record Rpc (W : Type 0) : Type 1 where
  pub call : RpcConfig → (q : Request) → Action W (Answer q)
  pub Tx : Type 0
  pub marshal_tx : Tx → Outcome Bytes
  pub encode_hex : Bytes → Bytes
  pub new_amount : Bytes → Outcome ℤ

-- `int64(n)`, of a uint64
unfoldable pub to_i64 : ℕ → ℤ
to_i64 n = of_bits 64 n

-- `int32(n)`, of a uint32
unfoldable pub to_i32 : ℕ → ℤ
to_i32 n = of_bits 32 n

module _ {W : Type 0} (rpc : Rpc W) where
  open rpc use {call, Tx, marshal_tx, encode_hex, new_amount}

  -- `GetWsAddrContext`
  pub ws_addr : Bytes → RpcConfig → Action W Node
  unfolding Answer
  ws_addr client_addr cfg = call cfg (get_ws_addr client_addr)

  -- `GetWssAddrContext`
  pub wss_addr : Bytes → RpcConfig → Action W Node
  unfolding Answer
  wss_addr client_addr cfg = call cfg (get_wss_addr client_addr)

  -- `GetPeerAddrContext`
  pub peer_addr : Bytes → Bytes → RpcConfig → Action W Node
  unfolding Answer
  peer_addr client_addr offer cfg = call cfg (get_peer_addr client_addr offer)

  -- `GetNodeStateContext`
  pub node_state : RpcConfig → Action W NodeState
  unfolding Answer
  node_state cfg = call cfg get_node_state

  -- `GetNonceContext`
  pub nonce_by_addr : Bytes → Bool → RpcConfig → Action W ℤ
  unfolding Answer
  nonce_by_addr address tx_pool cfg = do
    n ← call cfg (get_nonce_by_addr address)
    if tx_pool && ltb n.nonce n.nonce_in_tx_pool
        then pure (to_i64 n.nonce_in_tx_pool)
        else pure (to_i64 n.nonce)

  -- `GetBalanceContext`
  pub balance_by_addr : Bytes → RpcConfig → Action W ℤ
  unfolding Answer
  balance_by_addr address cfg = do b ← call cfg (get_balance_by_addr address); lift (new_amount b)

  -- `GetHeightContext`
  pub height : RpcConfig → Action W ℤ
  unfolding Answer
  height cfg = do h ← call cfg get_latest_block_height; pure (to_i32 h)

  -- `GetSubscribersContext`
  pub subscribers : SubscribersQuery → RpcConfig → Action W Subscribers
  unfolding Answer
  subscribers q cfg = do
    a ← call cfg (
        get_subscribers (record q { subscriber_hash_prefix = encode_hex q.subscriber_hash_prefix }))
    lift (read_subscribers q.meta q.tx_pool a)

  -- `GetSubscriptionContext`
  pub subscription : Bytes → Bytes → RpcConfig → Action W Subscription
  unfolding Answer
  subscription topic subscriber cfg = call cfg (get_subscription topic subscriber)

  -- `GetSubscribersCountContext`
  pub subscribers_count : Bytes → Bytes → RpcConfig → Action W ℤ
  unfolding Answer
  subscribers_count topic prefix cfg = call cfg (get_subscribers_count topic (encode_hex prefix))

  -- `GetRegistrantContext`
  pub registrant : Bytes → RpcConfig → Action W Registrant
  unfolding Answer
  registrant name cfg = call cfg (get_registrant name)

  -- `SendRawTransactionContext`
  pub send_raw : Tx → RpcConfig → Action W Bytes
  unfolding Answer
  send_raw t cfg = do b ← lift (marshal_tx t); call cfg (send_raw_transaction (encode_hex b))
