-- ===== src/Rpc/Transactions/Sent.antt =====
-- rpc.go: what is sent by the functions that make a transaction, and when nothing is.
use nkn_sdk_go.Base.{
  ℕ, zero, suc, ◌≡◌, ◌≢◌, refl, sym, ap, subst, Bool, true, false, not, ◌&&◌, [], ◌∷◌, Option, none,
  some, ◌⊎◌, inl, inr, if◌then◌else◌,
}
use nkn_sdk_go.Resolver.{is_empty}
use nkn_sdk_go.Rpc.Call.{is_zero}
use nkn_sdk_go.Base.Int.{ℤ, pos, negsuc, to_bits, to_u32}
use nkn_sdk_go.Base.Bytes.{Bytes}
use nkn_sdk_go.Errors.{Outcome, ok, err, panic, ok-injective}
use nkn_sdk_go.Action.{Action, pure, lift, ◌>>=◌, >>=-eq-ok, lift-eq-ok}
use nkn_sdk_go.Rpc.Transactions.{
  TransactionConfig, default_transaction_config, Ledger, Signer, merge_transaction_config,
  choose_nonce, with_attributes, sign_and_send, transfer, register_name, transfer_name, delete_name,
  subscribe, unsubscribe,
}

-- A call of one of the functions, with its arguments.
pub data Operation : Type 0 where
  to_transfer : Bytes → Bytes → Operation
  to_register_name : Bytes → Operation
  to_transfer_name : Bytes → Bytes → Operation
  to_delete_name : Bytes → Operation
  to_subscribe : Bytes → Bytes → ℤ → Bytes → Operation
  to_unsubscribe : Bytes → Bytes → Operation

module _ {W Tx : Type 0} (ledger : Ledger Tx) where
  unfoldable pub perform : Signer W Tx → Operation → Option TransactionConfig → Action W Bytes
  perform s (to_transfer address amount) conf = transfer ledger s address amount conf
  perform s (to_register_name name) conf = register_name ledger s name conf
  perform s (to_transfer_name name recipient) conf = transfer_name ledger s name recipient conf
  perform s (to_delete_name name) conf = delete_name ledger s name conf
  perform s (to_subscribe identifier topic duration meta) conf =
      subscribe ledger s identifier topic duration meta conf
  perform s (to_unsubscribe identifier topic) conf = unsubscribe ledger s identifier topic conf

-- What follows a value that was computed without the world.
with_value {ℓ κ} : {A : Type ℓ} {B : Type κ} → Outcome A → (A → Outcome B) → Outcome B
with_value (ok a) f = f a
with_value (err e) f = err e
with_value panic f = panic

module _ {Tx : Type 0} (ledger : Ledger Tx) where
  open ledger use {
    create_program_hash, string_to_fixed64, to_script_hash, min_name_registration_fee, new_transfer,
    new_register_name, new_transfer_name, new_delete_name, new_subscribe, new_unsubscribe,
  }

  -- The transaction that is meant, for the key of the signer, a nonce and a fee.
  unfoldable pub intended : Bytes → Operation → ℕ → ℤ → Outcome Tx
  unfolding with_value
  intended key (to_transfer address amount) nonce fee =
      with_value (create_program_hash key) (λ sender.
        with_value (string_to_fixed64 amount) (λ value.
          with_value (to_script_hash address)
            (λ recipient. new_transfer sender recipient nonce value fee)))
  intended key (to_register_name name) nonce fee =
      new_register_name key name nonce min_name_registration_fee fee
  intended key (to_transfer_name name recipient) nonce fee =
      new_transfer_name key recipient name nonce fee
  intended key (to_delete_name name) nonce fee = new_delete_name key name nonce fee
  intended key (to_subscribe identifier topic duration meta) nonce fee =
      new_subscribe key identifier topic (to_u32 duration) meta nonce fee
  intended key (to_unsubscribe identifier topic) nonce fee =
      new_unsubscribe key identifier topic nonce fee

zero_of : (a : ℤ) → is_zero a ≡ true → a ≡ pos 0
zero_of (pos zero) h = refl
zero_of (pos (suc n)) h = cc
zero_of (negsuc n) h = cc

module _ {W Tx : Type 0} (ledger : Ledger Tx) (s : Signer W Tx) where
  -- The default config, or that with what is not empty in the given one.
  abbrev pub IsMerged : Option TransactionConfig → TransactionConfig → Type 0
  IsMerged conf config =
      ((conf ≡ none) × (config ≡ default_transaction_config))
      ⊎ ((c : TransactionConfig) × (conf ≡ some c)
          × (ledger.copy_config default_transaction_config c ≡ ok config))

  -- The nonce of the config; if that is 0 and not fixed, what the node answers, its pool of transactions
  -- included, in the world before.
  abbrev pub IsNonce : TransactionConfig → W → ℤ → W → Type 0
  IsNonce config w nonce before =
      ((config.nonce ≡ pos 0)
        × (config.fix_nonce ≡ false)
        × (s.client.get_nonce true w ≡ (ok nonce, before)))
      ⊎ (((config.nonce ≢ pos 0) ⊎ (config.fix_nonce ≡ true))
          × (nonce ≡ config.nonce)
          × (before ≡ w))

  -- The transaction with the attributes of the config, if it has any.
  abbrev pub IsAttributed : TransactionConfig → Tx → Tx → Type 0
  IsAttributed config t t' =
      ((config.attributes ≡ []) × (t' ≡ t))
      ⊎ ((config.attributes ≢ []) × (t' ≡ ledger.set_attributes config.attributes t))

  merged :
      (conf : Option TransactionConfig) (config : TransactionConfig)
      → merge_transaction_config ledger conf ≡ ok config
      → IsMerged conf config
  unfolding merge_transaction_config
  merged none config h = inl (refl, sym (ok-injective h))
  merged (some c) config h = inr (c, refl, h)

  chosen :
      (z b : Bool) (config : TransactionConfig) (w before : W) (nonce : ℤ)
      → z ≡ is_zero config.nonce
      → b ≡ config.fix_nonce
      → (if z && not b then s.client.get_nonce true else pure config.nonce) w ≡ (ok nonce, before)
      → IsNonce config w nonce before
  chosen true false config w before nonce z b h = inl (zero_of config.nonce (sym z), sym b, h)
  chosen true true config w before nonce z b h =
      inr (inr (sym b), sym (ok-injective (λ i. (h i).0)), sym (λ i. (h i).1))
  chosen false b config w before nonce z f h =
      inr (inl (λ e. cc (ap is_zero e, z)), sym (ok-injective (λ i. (h i).0)), sym (λ i. (h i).1))

  attributed :
      (a : Bytes) (config : TransactionConfig) (t : Tx)
      → a ≡ config.attributes
      → IsAttributed config t (if is_empty a then t else ledger.set_attributes config.attributes t)
  attributed [] config t e = inl (sym e, refl)
  attributed (x ∷ xs) config t e = inr ((λ z. cc (e, z)), refl)

  -- From `w` to `u`, one transaction was sent, and `hash` was the answer: `make` of a nonce and a fee,
  -- which are those of the config or the node, with the config's attributes, and signed.
  pub record IsSent (conf : Option TransactionConfig) (make : ℕ → ℤ → Outcome Tx) (w u : W)
      (hash : Bytes) : Type 0 where
    pub config : TransactionConfig
    pub fee : ℤ
    pub nonce : ℤ
    pub before : W
    pub made : Tx
    pub complete : Tx
    pub signed : Tx
    pub config_eq : IsMerged conf config
    pub fee_eq : ledger.string_to_fixed64 config.fee ≡ ok fee
    pub nonce_eq : IsNonce config w nonce before
    pub made_eq : make (to_bits 64 nonce) fee ≡ ok made
    pub complete_eq : IsAttributed config made complete
    pub signed_eq : s.sign_transaction complete ≡ ok signed
    pub sent_eq : s.client.send_raw_transaction signed before ≡ (ok hash, u)

  -- The part of the functions from the nonce on.
  abbrev pub from_nonce : TransactionConfig → (ℤ → Outcome Tx) → Action W Bytes
  from_nonce cfg make = do
    nonce ← choose_nonce s cfg
    t ← lift (make nonce)
    sign_and_send ledger s cfg t

  from_nonce-IsSent :
      (conf : Option TransactionConfig) (cfg : TransactionConfig) (fee : ℤ)
      (make : ℕ → ℤ → Outcome Tx) (w u : W) (hash : Bytes)
      → merge_transaction_config ledger conf ≡ ok cfg
      → ledger.string_to_fixed64 cfg.fee ≡ ok fee
      → from_nonce cfg (λ n. make (to_bits 64 n) fee) w ≡ (ok hash, u)
      → IsSent conf make w u hash
  unfolding sign_and_send choose_nonce with_attributes
  from_nonce-IsSent conf cfg fee make w u hash c f h =
      let (nonce, w1, n, h1) = >>=-eq-ok (choose_nonce s cfg) _ w h in
      let (t, m, h2) = lift-eq-ok (make (to_bits 64 nonce) fee) _ w1 h1 in
      let (signed, g, h3) =
        lift-eq-ok (s.sign_transaction (with_attributes ledger cfg t)) _ w1 h2 in
      record {
        config = cfg;
        fee = fee;
        nonce = nonce;
        before = w1;
        made = t;
        complete = with_attributes ledger cfg t;
        signed = signed;
        config_eq = merged conf cfg c;
        fee_eq = f;
        nonce_eq = chosen (is_zero cfg.nonce) cfg.fix_nonce cfg w w1 nonce refl refl n;
        made_eq = m;
        complete_eq = attributed cfg.attributes cfg t refl;
        signed_eq = g;
        sent_eq = h3;
      }

  -- The functions but `transfer`.
  abbrev pub from_config :
      Option TransactionConfig → (TransactionConfig → ℤ → Action W Bytes) → Action W Bytes
  from_config conf rest = do
    cfg ← lift (merge_transaction_config ledger conf)
    fee ← lift (ledger.string_to_fixed64 cfg.fee)
    rest cfg fee

  from_config-IsSent :
      (conf : Option TransactionConfig) (make : ℕ → ℤ → Outcome Tx) (w u : W) (hash : Bytes)
      → from_config conf (λ cfg fee. from_nonce cfg (λ n. make (to_bits 64 n) fee)) w ≡ (ok hash, u)
      → IsSent conf make w u hash
  from_config-IsSent conf make w u hash h =
      let (cfg, c, h1) = lift-eq-ok (merge_transaction_config ledger conf) _ w h in
      let (fee, f, h2) = lift-eq-ok (ledger.string_to_fixed64 cfg.fee) _ w h1 in
      from_nonce-IsSent conf cfg fee make w u hash c f h2

  intended-transfer :
      (address amount sender recipient : Bytes) (value : ℤ)
      → ledger.create_program_hash s.pub_key ≡ ok sender
      → ledger.string_to_fixed64 amount ≡ ok value
      → ledger.to_script_hash address ≡ ok recipient
      → intended ledger s.pub_key (to_transfer address amount)
        ≡ (λ n fee. ledger.new_transfer sender recipient n value fee)
  unfolding intended with_value
  intended-transfer address amount sender recipient value p v r = λ i n fee.
      with_value (p i)
        (λ x. with_value (v i) (λ y. with_value (r i) (λ z. ledger.new_transfer x z n y fee)))

  transfer-IsSent :
      (address amount : Bytes) (conf : Option TransactionConfig) (w u : W) (hash : Bytes)
      → transfer ledger s address amount conf w ≡ (ok hash, u)
      → IsSent conf (intended ledger s.pub_key (to_transfer address amount)) w u hash
  unfolding transfer
  transfer-IsSent address amount conf w u hash h =
      let (cfg, c, h1) = lift-eq-ok (merge_transaction_config ledger conf) _ w h in
      let (sender, p, h2) = lift-eq-ok (ledger.create_program_hash s.pub_key) _ w h1 in
      let (value, v, h3) = lift-eq-ok (ledger.string_to_fixed64 amount) _ w h2 in
      let (recipient, r, h4) = lift-eq-ok (ledger.to_script_hash address) _ w h3 in
      let (fee, f, h5) = lift-eq-ok (ledger.string_to_fixed64 cfg.fee) _ w h4 in
      subst (λ make. IsSent conf make w u hash)
        (sym (intended-transfer address amount sender recipient value p v r))
        (from_nonce-IsSent conf cfg fee _ w u hash c f h5)

  -- A function that makes a transaction and returns a hash has sent one transaction: the one that is
  -- meant by its arguments, from this signer's key, with the fee and the attributes of the merged config
  -- and the chosen nonce as a uint64, and signed; the hash is the answer to that.
  pub perform-IsSent :
      (op : Operation) (conf : Option TransactionConfig) (w u : W) (hash : Bytes)
      → perform ledger s op conf w ≡ (ok hash, u)
      → IsSent conf (intended ledger s.pub_key op) w u hash
  unfolding perform intended register_name transfer_name delete_name subscribe unsubscribe
  perform-IsSent (to_transfer address amount) conf w u hash h =
      transfer-IsSent address amount conf w u hash h
  perform-IsSent (to_register_name name) conf w u hash h = from_config-IsSent conf _ w u hash h
  perform-IsSent (to_transfer_name name recipient) conf w u hash h =
      from_config-IsSent conf _ w u hash h
  perform-IsSent (to_delete_name name) conf w u hash h = from_config-IsSent conf _ w u hash h
  perform-IsSent (to_subscribe identifier topic duration meta) conf w u hash h =
      from_config-IsSent conf _ w u hash h
  perform-IsSent (to_unsubscribe identifier topic) conf w u hash h =
      from_config-IsSent conf _ w u hash h
