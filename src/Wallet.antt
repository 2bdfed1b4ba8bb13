-- ===== src/Wallet.antt =====
-- wallet.go: making a wallet, and writing it to and reading it from encrypted JSON; and
-- `MergeWalletConfig` of config.go. The package vault, JSON and copier are parameters. The RPC methods of
-- a wallet are in Rpc/Fallback.
pub mod RoundTrip
pub mod Checked
mod Tests
use nkn_sdk_go.Base.{
  Bool, true, false, ◌&&◌, ◌||◌, not, List, [], Option, none, some, if◌then◌else◌,
}
use nkn_sdk_go.Base.Int.{ℤ, pos, ltb_ℤ, leb_ℤ}
use nkn_sdk_go.Base.Bytes.{Bytes, bytes_eq}
use nkn_sdk_go.Errors.{Outcome, ok, err, panic, invalid_wallet_version, wrong_password}
use nkn_sdk_go.Action.{Action, pure, raise, raise_if, lift, ◌>>=◌, ◌>>◌}
use nkn_sdk_go.Resolver.{is_empty}

-- `ScryptConfig`
pub record ScryptConfig : Type 0 where
  pub salt : Bytes
  pub n : ℤ
  pub r : ℤ
  pub p : ℤ

-- The part of `WalletConfig` that is read here.
pub record WalletConfig : Type 0 where
  pub seed_rpc_server_addr : List Bytes
  pub password : Bytes
  pub iv : Bytes
  pub master_key : Bytes
  pub scrypt_config : ScryptConfig

-- `GetDefaultWalletConfig`, for the default servers.
abbrev pub default_wallet_config : List Bytes → WalletConfig
default_wallet_config servers = record {
  seed_rpc_server_addr = servers;
  password = [];
  iv = [];
  master_key = [];
  scrypt_config = record { salt = []; n = pos 0; r = pos 0; p = pos 0 };
}

-- The packages. `new_wallet_data` draws what the config leaves open, so it changes the world `W`.
pub record Vault (W : Type 0) : Type 1 where
  pub Account : Type 0
  pub Data : Type 0
  pub default_servers : List Bytes
  pub copy_config : WalletConfig → WalletConfig → Outcome WalletConfig
  pub wallet_address : Account → Bytes
  pub to_address : Account → Outcome Bytes
  pub new_wallet_data : Account → Bytes → Bytes → Bytes → ScryptConfig → Action W Data
  pub parse : Bytes → Outcome Data
  pub print : Data → Outcome Bytes
  pub version : Data → ℤ
  pub data_address : Data → Bytes
  pub data_iv : Data → Outcome Bytes
  pub decrypt_account : Data → Bytes → Outcome Account
  pub decrypt_master_key : Data → Bytes → Outcome Bytes
  pub check_password : Data → Bytes → Outcome (Unit {0})
  pub wallet_version : ℤ
  pub min_version : ℤ
  pub max_version : ℤ

module _ {W : Type 0} (vault : Vault W) where
  open vault use {
    Account, Data, default_servers, copy_config, wallet_address, to_address, new_wallet_data, parse,
    print, version, data_address, data_iv, decrypt_account, decrypt_master_key, check_password,
    wallet_version, min_version, max_version,
  }

  -- `Wallet`
  pub record Wallet : Type 0 where
    pub config : WalletConfig
    pub account : Account
    pub address : Bytes
    pub wallet_data : Option Data

  -- `if merged.SeedRPCServerAddr.Len() == 0 { ... }`
  abbrev pub with_servers : Outcome WalletConfig → Outcome WalletConfig
  with_servers (ok c) = ok (
      if is_empty c.seed_rpc_server_addr
      then record c { seed_rpc_server_addr = default_servers }
      else c)
  with_servers (err e) = err e
  with_servers panic = panic

  -- `MergeWalletConfig`
  pub merge_wallet_config : Option WalletConfig → Outcome WalletConfig
  merge_wallet_config none = with_servers (ok (default_wallet_config default_servers))
  merge_wallet_config (some conf) =
      with_servers (copy_config (default_wallet_config default_servers) conf)

  -- The deferred function, which clears the secrets of the config.
  abbrev pub cleared : WalletConfig → WalletConfig
  cleared c = record c { password = []; master_key = [] }

  -- The wallet with the data that is made for its secrets.
  pub with_data : Account → WalletConfig → Action W Wallet
  with_data account cfg = do
    d ← new_wallet_data account cfg.password cfg.master_key cfg.iv cfg.scrypt_config
    pure (record {
      config = cleared cfg;
      account = account;
      address = wallet_address account;
      wallet_data = some d;
    })

  -- The wallet with no secrets.
  abbrev pub without_data : Account → WalletConfig → Wallet
  without_data account cfg = record {
    config = cfg;
    account = account;
    address = wallet_address account;
    wallet_data = none;
  }

  -- `NewWallet`, for the merged config.
  pub make_wallet : Account → WalletConfig → Action W Wallet
  unfolding with_data
  make_wallet account cfg =
      if not (is_empty cfg.password) || not (is_empty cfg.master_key)
      then with_data account cfg
      else pure (without_data account cfg)

  -- `NewWallet`
  pub new_wallet : Account → Option WalletConfig → Action W Wallet
  unfolding merge_wallet_config make_wallet
  new_wallet account conf = do cfg ← lift (merge_wallet_config conf); make_wallet account cfg

  -- `WalletFromJSON`, when the account has been decrypted and its address is right: the data of the
  -- present version is kept, that of an older one is made anew.
  pub restore : WalletConfig → Data → Account → Bytes → Action W Wallet
  unfolding new_wallet
  restore cfg d account address =
      if leb_ℤ (version d) wallet_version && leb_ℤ wallet_version (version d)
      then pure (record {
        config = cleared cfg;
        account = account;
        address = address;
        wallet_data = some d;
      })
      else (do
        iv ← lift (data_iv d)
        master_key ← lift (decrypt_master_key d cfg.password)
        new_wallet account (some (record cfg { iv = iv; master_key = master_key })))

  -- `WalletFromJSON`
  pub wallet_from_json : Bytes → Option WalletConfig → Action W Wallet
  unfolding merge_wallet_config restore
  wallet_from_json json conf = do
    cfg ← lift (merge_wallet_config conf)
    d ← lift (parse json)
    raise_if (ltb_ℤ (version d) min_version || ltb_ℤ max_version (version d)) invalid_wallet_version
    account ← lift (decrypt_account d cfg.password)
    address ← lift (to_address account)
    raise_if (not (bytes_eq address (data_address d))) wrong_password
    restore cfg d account address

  -- What follows the call of `vault.NewWalletData`: the data is kept.
  abbrev pub keep_data : Wallet → Outcome Data × W → Outcome Data × (Wallet × W)
  keep_data s (ok d, w) = (ok d, (record s { wallet_data = some d }, w))
  keep_data s (err e, w) = (err e, (s, w))
  keep_data s (panic, w) = (panic, (s, w))

  abbrev pub data_or_new : Option Data → Wallet → W → Outcome Data × (Wallet × W)
  data_or_new (some d) s w = (ok d, (s, w))
  data_or_new none s w = keep_data s (
      new_wallet_data s.account s.config.password s.config.master_key s.config.iv
        s.config.scrypt_config w)

  -- `getWalletData`
  pub get_wallet_data : Action (Wallet × W) Data
  get_wallet_data (s, w) = data_or_new s.wallet_data s w

  -- `MarshalJSON`, and so `ToJSON`
  pub to_json : Action (Wallet × W) Bytes
  unfolding get_wallet_data
  to_json = do d ← get_wallet_data; lift (print d)

  -- `VerifyPassword`
  pub verify_password : Bytes → Action (Wallet × W) (Unit {0})
  unfolding get_wallet_data
  verify_password password = do d ← get_wallet_data; lift (check_password d password)
