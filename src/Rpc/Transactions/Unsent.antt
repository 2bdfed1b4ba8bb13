-- ===== src/Rpc/Transactions/Unsent.antt =====
-- rpc.go: when a function that makes a transaction has sent nothing.
use nkn_sdk_go.Base.{◌≡◌, refl, subst, true, not, ◌&&◌, Option, ◌⊎◌, inl, inr, Bool-cases}
use nkn_sdk_go.Base.Bytes.{Bytes}
use nkn_sdk_go.Rpc.Call.{is_zero}
use nkn_sdk_go.Base.Int.{ℤ}
use nkn_sdk_go.Errors.{Error, Outcome, ok, err, panic}
use nkn_sdk_go.Action.{Action, continue}
use nkn_sdk_go.Rpc.Transactions.{
  TransactionConfig, Ledger, Signer, merge_transaction_config, choose_nonce, with_attributes,
  sign_and_send, transfer, register_name, transfer_name, delete_name, subscribe, unsubscribe,
}
use nkn_sdk_go.Rpc.Transactions.Sent.{
  Operation, to_transfer, to_register_name, to_transfer_name, to_delete_name, to_subscribe,
  to_unsubscribe, perform, from_nonce, from_config,
}

same_error : {B : Type 0} {x e : Error} → ◌≡◌ {A = Outcome B} (err x) (err e) → x ≡ e
same_error h = cc

module _ {A B W : Type 0} {e : Error} {u : W} where
  -- A chain that fails does so at its first call or after it.
  fails_at :
      (r : Outcome A × W) (f : A → Action W B)
      → continue r f ≡ (err e, u)
      → (r ≡ (err e, u)) ⊎ ((a : A) × (w : W) × (r ≡ (ok a, w)) × (f a w ≡ (err e, u)))
  fails_at (ok a, w) f h = inr (a, w, refl, h)
  fails_at (err x, w) f h =
      let same : x ≡ e = same_error (λ j. (h j).0) in inl (λ i. (err (same i), (h i).1))
  fails_at (panic, w) f h = cc

module _ {W Tx : Type 0} (ledger : Ledger Tx) (s : Signer W Tx) where
  -- The world is as before, or a nonce was asked for.
  abbrev pub IsUntouched : W → W → Type 0
  IsUntouched w u = (u ≡ w) ⊎ (u ≡ (s.client.get_nonce true w).1)

  -- Nothing was sent, or a signed transaction was, and the error is the answer to that.
  abbrev pub IsUnsent : Error → W → W → Type 0
  IsUnsent e w u =
      IsUntouched w u
      ⊎ ((t : Tx) × (signed : Tx) × (before : W) × IsUntouched w before
          × (s.sign_transaction t ≡ ok signed)
          × (s.client.send_raw_transaction signed before ≡ (err e, u)))

  choose_nonce-IsUntouched :
      (cfg : TransactionConfig) (w : W) → IsUntouched w (choose_nonce s cfg w).1
  unfolding choose_nonce
  choose_nonce-IsUntouched cfg w = elim (Bool-cases (is_zero cfg.nonce && not cfg.fix_nonce)) [
    | inl h ↦ inr (rw h refl)
    | inr h ↦ inl (rw h refl)
  ]

  -- A value that is computed without the world.
  lift_fails :
      {A : Type 0} (o : Outcome A) (f : A → Action W Bytes) (e : Error) (w v u : W)
      → IsUntouched w v
      → continue (o, v) f ≡ (err e, u)
      → ((a : A) → o ≡ ok a → f a v ≡ (err e, u) → IsUnsent e w u)
      → IsUnsent e w u
  lift_fails (ok a) f e w v u k h rest = rest a refl h
  lift_fails (err x) f e w v u k h rest = inl (subst (IsUntouched w) (λ i. (h i).1) k)
  lift_fails panic f e w v u k h rest = cc

  send_fails :
      (cfg : TransactionConfig) (t : Tx) (e : Error) (w v u : W)
      → IsUntouched w v
      → sign_and_send ledger s cfg t v ≡ (err e, u)
      → IsUnsent e w u
  unfolding sign_and_send
  send_fails cfg t e w v u k h =
      lift_fails (s.sign_transaction (with_attributes ledger cfg t))
        (λ signed. s.client.send_raw_transaction signed) e w v u k h
        (λ signed g h'. inr (with_attributes ledger cfg t, signed, v, k, g, h'))

  nonce_fails :
      (cfg : TransactionConfig) (make : ℤ → Outcome Tx) (e : Error) (w u : W)
      → from_nonce ledger s cfg make w ≡ (err e, u)
      → IsUnsent e w u
  nonce_fails cfg make e w u h =
      let k = choose_nonce-IsUntouched cfg w in
      elim (fails_at (choose_nonce s cfg w) _ h) [
        | inl r ↦ inl (subst (IsUntouched w) (λ i. (r i).1) k)
        | inr (nonce, v, r, h') ↦
            let k' : IsUntouched w v = subst (IsUntouched w) (λ i. (r i).1) k in
            lift_fails (make nonce) (λ t. sign_and_send ledger s cfg t) e w v u k' h'
              (λ t m. send_fails cfg t e w v u k')
      ]

  config_fails :
      (conf : Option TransactionConfig) (rest : TransactionConfig → ℤ → Action W Bytes) (e : Error)
      (w u : W)
      → ((cfg : TransactionConfig) (fee : ℤ) → rest cfg fee w ≡ (err e, u) → IsUnsent e w u)
      → from_config ledger s conf rest w ≡ (err e, u)
      → IsUnsent e w u
  config_fails conf rest e w u k h =
      lift_fails (merge_transaction_config ledger conf) _ e w w u (inl refl) h (λ cfg c h1.
        lift_fails (ledger.string_to_fixed64 cfg.fee) _ e w w u (inl refl) h1 (λ fee f. k cfg fee))

  -- A function that makes a transaction and returns an error has sent nothing, and asked for no more than
  -- a nonce, unless the error is the answer of the node to a signed transaction.
  pub perform-IsUnsent :
      (op : Operation) (conf : Option TransactionConfig) (e : Error) (w u : W)
      → perform ledger s op conf w ≡ (err e, u)
      → IsUnsent e w u
  unfolding perform transfer register_name transfer_name delete_name subscribe unsubscribe
  perform-IsUnsent (to_transfer address amount) conf e w u h =
      lift_fails (merge_transaction_config ledger conf) _ e w w u (inl refl) h (λ cfg c h1.
        lift_fails (ledger.create_program_hash s.pub_key) _ e w w u (inl refl) h1 (λ sender p h2.
          lift_fails (ledger.string_to_fixed64 amount) _ e w w u (inl refl) h2 (λ value v h3.
            lift_fails (ledger.to_script_hash address) _ e w w u (inl refl) h3 (λ recipient r h4.
              lift_fails (ledger.string_to_fixed64 cfg.fee) _ e w w u (inl refl) h4
                (λ fee f h5. nonce_fails cfg _ e w u h5)))))
  perform-IsUnsent (to_register_name name) conf e w u h =
      config_fails conf _ e w u (λ cfg fee. nonce_fails cfg _ e w u) h
  perform-IsUnsent (to_transfer_name name recipient) conf e w u h =
      config_fails conf _ e w u (λ cfg fee. nonce_fails cfg _ e w u) h
  perform-IsUnsent (to_delete_name name) conf e w u h =
      config_fails conf _ e w u (λ cfg fee. nonce_fails cfg _ e w u) h
  perform-IsUnsent (to_subscribe identifier topic duration meta) conf e w u h =
      config_fails conf _ e w u (λ cfg fee. nonce_fails cfg _ e w u) h
  perform-IsUnsent (to_unsubscribe identifier topic) conf e w u h =
      config_fails conf _ e w u (λ cfg fee. nonce_fails cfg _ e w u) h
