-- ===== src/Rpc/Transactions/Tests.antt =====
-- rpc.go: the theorems about transactions at concrete ones, on a ledger where a transaction is a list of
-- numbers, and a node that counts what it gets.
use nkn_sdk_go.Base.{ℕ, suc, ◌≡◌, refl, none, [], ◌∷◌, ◌++◌}
use nkn_sdk_go.Base.Int.{ℤ, pos, pos_part}
use nkn_sdk_go.Base.Bytes.{Bytes, text}
use nkn_sdk_go.Errors.{Outcome, ok, err, external}
use nkn_sdk_go.Rpc.Fallback.{RpcClient}
use nkn_sdk_go.Rpc.Transactions.{
  Ledger, Signer, merge_transaction_config, choose_nonce, with_attributes, sign_and_send, transfer,
}
use nkn_sdk_go.Rpc.Transactions.Sent.{
  Operation, to_transfer, perform, intended, IsSent, perform-IsSent,
}
use nkn_sdk_go.Rpc.Transactions.Unsent.{IsUnsent, perform-IsUnsent}

abbrev amount_of : Bytes → Outcome ℤ
amount_of [] = err (external (pos 3))
amount_of (d ∷ ds) = ok (pos d)

abbrev toy_ledger : Ledger Bytes
toy_ledger = record {
  copy_config = λ base c. ok c;
  create_program_hash = λ b. ok b;
  string_to_fixed64 = amount_of;
  to_script_hash = λ b. ok b;
  min_name_registration_fee = pos 10;
  new_transfer = λ s r n a f. ok (n ∷ pos_part a ∷ pos_part f ∷ []);
  new_register_name = λ k m n r f. ok (n ∷ []);
  new_transfer_name = λ k r m n f. ok (n ∷ []);
  new_delete_name = λ k m n f. ok (n ∷ []);
  new_subscribe = λ k i t d m n f. ok (n ∷ d ∷ []);
  new_unsubscribe = λ k i t n f. ok (n ∷ []);
  set_attributes = λ a t. t ++ a;
}

abbrev toy_rpc_client : RpcClient ℕ Bytes
toy_rpc_client = record {
  get_nonce = λ pool w. (ok (pos 4), w);
  get_nonce_by_address = λ a pool w. (ok (pos 4), w);
  balance = λ w. (ok (pos 0), w);
  balance_by_address = λ a w. (ok (pos 0), w);
  get_height = λ w. (ok (pos 0), w);
  get_subscribers = λ q w. (err (external (pos 1)), w);
  get_subscription = λ t s w. (err (external (pos 1)), w);
  get_subscribers_count = λ t p w. (ok (pos 0), w);
  get_registrant = λ n w. (err (external (pos 1)), w);
  send_raw_transaction = λ t w. (ok t, suc w);
}

abbrev toy_signer : Signer ℕ Bytes
toy_signer = record {
  pub_key = text "k";
  sign_transaction = λ t. ok (t ++ 99 ∷ []);
  client = toy_rpc_client;
}

abbrev a_transfer : Operation
a_transfer = to_transfer (text "to") (text "1")

abbrev hash : Bytes
hash = 4 ∷ 49 ∷ 48 ∷ 99 ∷ []

transfer_run : perform toy_ledger toy_signer a_transfer none 0 ≡ (ok hash, 1)
unfolding perform transfer merge_transaction_config choose_nonce sign_and_send with_attributes
transfer_run = refl

perform-IsSent_example :
    IsSent toy_ledger toy_signer none (intended toy_ledger toy_signer.pub_key a_transfer) 0 1 hash
perform-IsSent_example = perform-IsSent toy_ledger toy_signer a_transfer none 0 1 hash transfer_run

-- An amount that cannot be read.
abbrev no_amount : Operation
no_amount = to_transfer (text "to") []

unread_run : perform toy_ledger toy_signer no_amount none 0 ≡ (err (external (pos 3)), 0)
unfolding perform transfer merge_transaction_config choose_nonce sign_and_send with_attributes
unread_run = refl

perform-IsUnsent_example : IsUnsent toy_ledger toy_signer (external (pos 3)) 0 0
perform-IsUnsent_example =
    perform-IsUnsent toy_ledger toy_signer no_amount none (external (pos 3)) 0 0 unread_run
