-- ===== src/Rpc/Fallback.antt =====
-- client.go, multiclient.go and wallet.go: the methods of `rpcClient`, by which config is used for the
-- call. A client asks the node that it is connected to first; a multiclient asks those of its clients.
pub mod Order
mod Tests
use nkn_sdk_go.Base.{Bool, true, List, [], ◌∷◌, if◌then◌else◌}
use nkn_sdk_go.Base.Int.{ℤ}
use nkn_sdk_go.Base.Bytes.{Bytes}
use nkn_sdk_go.Errors.{Outcome, ok, err, panic}
use nkn_sdk_go.Action.{Action}
use nkn_sdk_go.Resolver.{is_empty}
use nkn_sdk_go.Rpc.Requests.{RpcConfig, Subscription, Registrant, SubscribersQuery}
use nkn_sdk_go.Rpc.Listing.{Subscribers}
use nkn_sdk_go.Rpc.Methods.{
  Rpc, nonce_by_addr, balance_by_addr, height, subscribers, subscription, subscribers_count,
  registrant, send_raw,
}

module _ {W A : Type 0} where
  -- `if err == nil { return res, err }`, and what follows.
  pub unless_ok : Outcome A × W → Action W A → Outcome A × W
  unless_ok (ok a, w) next = (ok a, w)
  unless_ok (err e, w) next = next w
  unless_ok (panic, w) next = (panic, w)

  -- `if c.wallet.config.SeedRPCServerAddr.Len() > 0 { ... }`, and what follows.
  pub try_wallet : RpcConfig → (RpcConfig → Action W A) → Action W A → Action W A
  unfolding unless_ok
  try_wallet cfg f next w =
      if is_empty cfg.seed_rpc_server_addr then next w else unless_ok (f cfg w) next

  -- A call of a client, by the config of its wallet and its own.
  pub on_client : RpcConfig → RpcConfig → (RpcConfig → Action W A) → Action W A
  unfolding try_wallet
  on_client wallet own f = try_wallet wallet f (f own)

  -- A call of a multiclient, by the configs of its clients' wallets, in the order in which the loop
  -- visits the clients, and its own.
  pub on_clients : List RpcConfig → RpcConfig → (RpcConfig → Action W A) → Action W A
  unfolding try_wallet
  on_clients [] own f = f own
  on_clients (wallet ∷ wallets) own f = try_wallet wallet f (on_clients wallets own f)

-- `rpcClient`, less the methods that call another with the background context.
pub record RpcClient (W Tx : Type 0) : Type 0 where
  pub get_nonce : Bool → Action W ℤ
  pub get_nonce_by_address : Bytes → Bool → Action W ℤ
  pub balance : Action W ℤ
  pub balance_by_address : Bytes → Action W ℤ
  pub get_height : Action W ℤ
  pub get_subscribers : SubscribersQuery → Action W Subscribers
  pub get_subscription : Bytes → Bytes → Action W Subscription
  pub get_subscribers_count : Bytes → Bytes → Action W ℤ
  pub get_registrant : Bytes → Action W Registrant
  pub send_raw_transaction : Tx → Action W Bytes

module _ {W : Type 0} (rpc : Rpc W) where
  open rpc use {Tx}

  -- The methods of a wallet, with its address and its config.
  pub wallet_rpc : Bytes → RpcConfig → RpcClient W Tx
  wallet_rpc address cfg = record {
    get_nonce = λ pool. nonce_by_addr rpc address pool cfg;
    get_nonce_by_address = λ a pool. nonce_by_addr rpc a pool cfg;
    balance = balance_by_addr rpc address cfg;
    balance_by_address = λ a. balance_by_addr rpc a cfg;
    get_height = height rpc cfg;
    get_subscribers = λ q. subscribers rpc q cfg;
    get_subscription = λ t s. subscription rpc t s cfg;
    get_subscribers_count = λ t p. subscribers_count rpc t p cfg;
    get_registrant = λ n. registrant rpc n cfg;
    send_raw_transaction = λ t. send_raw rpc t cfg;
  }

  -- The methods of a client, with the address of its wallet, the wallet's config and its own.
  pub client_rpc : Bytes → RpcConfig → RpcConfig → RpcClient W Tx
  unfolding on_client
  client_rpc address wallet own = record {
    get_nonce = λ pool. on_client wallet own (nonce_by_addr rpc address pool);
    get_nonce_by_address = λ a pool. on_client wallet own (nonce_by_addr rpc a pool);
    balance = on_client wallet own (balance_by_addr rpc address);
    balance_by_address = λ a. on_client wallet own (balance_by_addr rpc a);
    get_height = on_client wallet own (height rpc);
    get_subscribers = λ q. on_client wallet own (subscribers rpc q);
    get_subscription = λ t s. on_client wallet own (subscription rpc t s);
    get_subscribers_count = λ t p. on_client wallet own (subscribers_count rpc t p);
    get_registrant = λ n. on_client wallet own (registrant rpc n);
    send_raw_transaction = λ t. on_client wallet own (send_raw rpc t);
  }

  -- The methods of a multiclient, with the address of its default client's wallet, the configs of all
  -- its clients' wallets, and its own config.
  pub multi_client_rpc : Bytes → List RpcConfig → RpcConfig → RpcClient W Tx
  unfolding on_clients
  multi_client_rpc address wallets own = record {
    get_nonce = λ pool. on_clients wallets own (nonce_by_addr rpc address pool);
    get_nonce_by_address = λ a pool. on_clients wallets own (nonce_by_addr rpc a pool);
    balance = on_clients wallets own (balance_by_addr rpc address);
    balance_by_address = λ a. on_clients wallets own (balance_by_addr rpc a);
    get_height = on_clients wallets own (height rpc);
    get_subscribers = λ q. on_clients wallets own (subscribers rpc q);
    get_subscription = λ t s. on_clients wallets own (subscription rpc t s);
    get_subscribers_count = λ t p. on_clients wallets own (subscribers_count rpc t p);
    get_registrant = λ n. on_clients wallets own (registrant rpc n);
    send_raw_transaction = λ t. on_clients wallets own (send_raw rpc t);
  }
