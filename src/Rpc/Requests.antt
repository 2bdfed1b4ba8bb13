-- ===== src/Rpc/Requests.antt =====
-- rpc.go: the methods of a node that the package calls, with their parameters and their answers.
use nkn_sdk_go.Base.{ℕ, Bool, List}
use nkn_sdk_go.Base.Int.{ℤ}
use nkn_sdk_go.Base.Bytes.{Bytes, Dict}
use nkn_sdk_go.Client.State.{Node}

-- `RPCConfigInterface`, by what its methods return.
pub record RpcConfig : Type 0 where
  pub seed_rpc_server_addr : List Bytes
  pub rpc_timeout : ℤ
  pub rpc_concurrency : ℤ

-- `NodeState`
pub record NodeState : Type 0 where
  pub addr : Bytes
  pub curr_time_stamp : ℤ
  pub height : ℤ
  pub id : Bytes
  pub json_rpc_port : ℤ
  pub proposal_submitted : ℤ
  pub protocol_version : ℤ
  pub public_key : Bytes
  pub relay_message_count : ℤ
  pub sync_state : Bytes
  pub tls_json_rpc_domain : Bytes
  pub tls_json_rpc_port : ℤ
  pub tls_websocket_domain : Bytes
  pub tls_websocket_port : ℤ
  pub uptime : ℤ
  pub version : Bytes
  pub websocket_port : ℤ

-- `Subscription`
pub record Subscription : Type 0 where
  pub meta : Bytes
  pub expires_at : ℤ

-- `Registrant`
pub record Registrant : Type 0 where
  pub registrant : Bytes
  pub expires_at : ℤ

-- `nonce`, two uint64
pub record Nonce : Type 0 where
  pub nonce : ℕ
  pub nonce_in_tx_pool : ℕ

-- A member of the answer of `getsubscribers`, as far as `GetSubscribersContext` tells them apart: an
-- object or an array, each with strings and other values in it, or something else.
pub data Leaf : Type 0 where
  string : Bytes → Leaf
  not_string : Leaf

pub data Field : Type 0 where
  object : Dict Leaf → Field
  array : List Leaf → Field
  neither : Field

pub record SubscribersAnswer : Type 0 where
  pub subscribers : Field
  pub subscribers_in_tx_pool : Field

-- The parameters of `getsubscribers`.
pub record SubscribersQuery : Type 0 where
  pub topic : Bytes
  pub offset : ℤ
  pub limit : ℤ
  pub meta : Bool
  pub tx_pool : Bool
  pub subscriber_hash_prefix : Bytes

-- The methods, with their parameters.
pub data Request : Type 0 where
  get_ws_addr get_wss_addr get_nonce_by_addr get_balance_by_addr : Bytes → Request
  get_latest_block_height get_node_state : Request
  get_subscribers : SubscribersQuery → Request
  get_subscription get_subscribers_count get_peer_addr : Bytes → Bytes → Request
  get_registrant send_raw_transaction : Bytes → Request

-- What the answer to a request is decoded into.
unfoldable pub Answer : Request → Type 0
Answer (get_ws_addr a) = Node
Answer (get_wss_addr a) = Node
Answer (get_nonce_by_addr a) = Nonce
Answer (get_balance_by_addr a) = Bytes
Answer get_latest_block_height = ℕ
Answer get_node_state = NodeState
Answer (get_subscribers q) = SubscribersAnswer
Answer (get_subscription t s) = Subscription
Answer (get_subscribers_count t p) = ℤ
Answer (get_peer_addr a o) = Node
Answer (get_registrant n) = Registrant
Answer (send_raw_transaction t) = Bytes
