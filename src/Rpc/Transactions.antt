-- ===== src/Rpc/Transactions.antt =====
-- rpc.go: the functions that make a transaction, sign it and send it, `TransferContext` and the others,
-- and `MergeTransactionConfig` of config.go. (`Transfer` and the methods of wallets, clients and
-- multiclients of that name call these.)
pub mod Sent
pub mod Unsent
mod Tests
use nkn_sdk_go.Base.{
  ℕ, Bool, true, false, not, ◌&&◌, Option, none, some, List, [], ◌∷◌, if◌then◌else◌,
}
use nkn_sdk_go.Base.Int.{ℤ, pos, to_bits, to_u32}
use nkn_sdk_go.Base.Bytes.{Bytes, text}
use nkn_sdk_go.Errors.{Outcome, ok, err, panic}
use nkn_sdk_go.Action.{Action, pure, lift, ◌>>=◌}
use nkn_sdk_go.Resolver.{is_empty}
use nkn_sdk_go.Rpc.Call.{is_zero}
use nkn_sdk_go.Rpc.Fallback.{RpcClient}

-- `TransactionConfig`
pub record TransactionConfig : Type 0 where
  pub fee : Bytes
  pub nonce : ℤ
  pub fix_nonce : Bool
  pub attributes : Bytes

-- `DefaultTransactionConfig`
abbrev pub default_transaction_config : TransactionConfig
default_transaction_config = record {
  fee = text "0";
  nonce = pos 0;
  fix_nonce = false;
  attributes = [];
}

-- The packages for transactions, and `copier.CopyWithOption` with `IgnoreEmpty`.
pub record Ledger (Tx : Type 0) : Type 0 where
  pub copy_config : TransactionConfig → TransactionConfig → Outcome TransactionConfig
  pub create_program_hash : Bytes → Outcome Bytes
  pub string_to_fixed64 : Bytes → Outcome ℤ
  pub to_script_hash : Bytes → Outcome Bytes
  pub min_name_registration_fee : ℤ
  pub new_transfer : Bytes → Bytes → ℕ → ℤ → ℤ → Outcome Tx
  pub new_register_name : Bytes → Bytes → ℕ → ℤ → ℤ → Outcome Tx
  pub new_transfer_name : Bytes → Bytes → Bytes → ℕ → ℤ → Outcome Tx
  pub new_delete_name : Bytes → Bytes → ℕ → ℤ → Outcome Tx
  pub new_subscribe : Bytes → Bytes → Bytes → ℕ → Bytes → ℕ → ℤ → Outcome Tx
  pub new_unsubscribe : Bytes → Bytes → Bytes → ℕ → ℤ → Outcome Tx
  pub set_attributes : Bytes → Tx → Tx

-- `signer` and `rpcClient`, which `signerRPCClient` embeds.
pub record Signer (W Tx : Type 0) : Type 0 where
  pub pub_key : Bytes
  pub sign_transaction : Tx → Outcome Tx
  pub client : RpcClient W Tx

module _ {Tx : Type 0} (ledger : Ledger Tx) where
  open ledger use {copy_config, set_attributes}

  -- `MergeTransactionConfig`
  pub merge_transaction_config : Option TransactionConfig → Outcome TransactionConfig
  merge_transaction_config none = ok default_transaction_config
  merge_transaction_config (some conf) = copy_config default_transaction_config conf

  -- `if len(config.Attributes) > 0 { ... }`
  pub with_attributes : TransactionConfig → Tx → Tx
  with_attributes cfg t = if is_empty cfg.attributes then t else set_attributes cfg.attributes t

-- `nonce := config.Nonce; if nonce == 0 && !config.FixNonce { ... }`
pub choose_nonce : {W Tx : Type 0} → Signer W Tx → TransactionConfig → Action W ℤ
choose_nonce s cfg =
    if is_zero cfg.nonce && not cfg.fix_nonce then s.client.get_nonce true else pure cfg.nonce

module _ {W Tx : Type 0} (ledger : Ledger Tx) where
  open ledger use {
    create_program_hash, string_to_fixed64, to_script_hash, min_name_registration_fee, new_transfer,
    new_register_name, new_transfer_name, new_delete_name, new_subscribe, new_unsubscribe,
  }

  -- The end of each of the functions: the attributes, the signature, and the call that sends.
  pub sign_and_send : Signer W Tx → TransactionConfig → Tx → Action W Bytes
  unfolding with_attributes
  sign_and_send s cfg t = do
    signed ← lift (s.sign_transaction (with_attributes ledger cfg t))
    s.client.send_raw_transaction signed

  -- `TransferContext`
  pub transfer : Signer W Tx → Bytes → Bytes → Option TransactionConfig → Action W Bytes
  unfolding merge_transaction_config choose_nonce sign_and_send
  transfer s address amount conf = do
    cfg ← lift (merge_transaction_config ledger conf)
    sender ← lift (create_program_hash s.pub_key)
    amount_fixed64 ← lift (string_to_fixed64 amount)
    recipient ← lift (to_script_hash address)
    fee ← lift (string_to_fixed64 cfg.fee)
    nonce ← choose_nonce s cfg
    t ← lift (new_transfer sender recipient (to_bits 64 nonce) amount_fixed64 fee)
    sign_and_send s cfg t

  -- `RegisterNameContext`
  pub register_name : Signer W Tx → Bytes → Option TransactionConfig → Action W Bytes
  unfolding merge_transaction_config choose_nonce sign_and_send
  register_name s name conf = do
    cfg ← lift (merge_transaction_config ledger conf)
    fee ← lift (string_to_fixed64 cfg.fee)
    nonce ← choose_nonce s cfg
    t ← lift (new_register_name s.pub_key name (to_bits 64 nonce) min_name_registration_fee fee)
    sign_and_send s cfg t

  -- `TransferNameContext`
  pub transfer_name : Signer W Tx → Bytes → Bytes → Option TransactionConfig → Action W Bytes
  unfolding merge_transaction_config choose_nonce sign_and_send
  transfer_name s name recipient_pub_key conf = do
    cfg ← lift (merge_transaction_config ledger conf)
    fee ← lift (string_to_fixed64 cfg.fee)
    nonce ← choose_nonce s cfg
    t ← lift (new_transfer_name s.pub_key recipient_pub_key name (to_bits 64 nonce) fee)
    sign_and_send s cfg t

  -- `DeleteNameContext`
  pub delete_name : Signer W Tx → Bytes → Option TransactionConfig → Action W Bytes
  unfolding merge_transaction_config choose_nonce sign_and_send
  delete_name s name conf = do
    cfg ← lift (merge_transaction_config ledger conf)
    fee ← lift (string_to_fixed64 cfg.fee)
    nonce ← choose_nonce s cfg
    t ← lift (new_delete_name s.pub_key name (to_bits 64 nonce) fee)
    sign_and_send s cfg t

  -- `SubscribeContext`
  pub subscribe :
      Signer W Tx → Bytes → Bytes → ℤ → Bytes → Option TransactionConfig → Action W Bytes
  unfolding merge_transaction_config choose_nonce sign_and_send
  subscribe s identifier topic duration meta conf = do
    cfg ← lift (merge_transaction_config ledger conf)
    fee ← lift (string_to_fixed64 cfg.fee)
    nonce ← choose_nonce s cfg
    t ←
        lift
          (new_subscribe s.pub_key identifier topic (to_u32 duration) meta (to_bits 64 nonce) fee)
    sign_and_send s cfg t

  -- `UnsubscribeContext`
  pub unsubscribe : Signer W Tx → Bytes → Bytes → Option TransactionConfig → Action W Bytes
  unfolding merge_transaction_config choose_nonce sign_and_send
  unsubscribe s identifier topic conf = do
    cfg ← lift (merge_transaction_config ledger conf)
    fee ← lift (string_to_fixed64 cfg.fee)
    nonce ← choose_nonce s cfg
    t ← lift (new_unsubscribe s.pub_key identifier topic (to_bits 64 nonce) fee)
    sign_and_send s cfg t
