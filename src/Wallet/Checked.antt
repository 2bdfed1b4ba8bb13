-- ===== src/Wallet/Checked.antt =====
-- wallet.go: what `WalletFromJSON` has checked, and what it leaves in the config.
use nkn_sdk_go.Base.{
  ◌≡◌, refl, sym, ap, ◌∙◌, false, not, ◌||◌, ◌&&◌, [], ◌∷◌, Option, some, Bool-cases, inl, inr,
  if◌then◌else◌, arith,
}
use nkn_sdk_go.Base.Int.{ltb_ℤ, leb_ℤ}
use nkn_sdk_go.Base.Bytes.{Bytes, bytes_eq, bytes_eq_sound}
use nkn_sdk_go.Errors.{ok, invalid_wallet_version, wrong_password, ok-injective}
use nkn_sdk_go.Action.{Action, lift, pure, ◌>>=◌, >>=-eq-ok, lift-eq-ok, raise_if-eq-ok}
use nkn_sdk_go.Resolver.{is_empty}
use nkn_sdk_go.Wallet.{
  WalletConfig, Vault, Wallet, cleared, merge_wallet_config, with_data, without_data, make_wallet,
  new_wallet, restore, wallet_from_json,
}

module _ {W : Type 0} (vault : Vault W) where
  open vault use {
    Account, Data, to_address, new_wallet_data, parse, version, data_address, data_iv,
    decrypt_account, decrypt_master_key, wallet_version, min_version, max_version,
  }

  -- No secret is left in the config of a wallet.
  abbrev pub HasNoSecret : Wallet vault → Type 0
  HasNoSecret s = (s.config.password ≡ []) × (s.config.master_key ≡ [])

  without_secret :
      (x y : Bytes) → (not (is_empty x) || not (is_empty y)) ≡ false → (x ≡ []) × (y ≡ [])
  without_secret [] [] h = (refl, refl)
  without_secret [] (b ∷ y) h = cc
  without_secret (b ∷ x) y h = cc

  make_wallet-HasNoSecret :
      (a : Account) (cfg : WalletConfig) (s : Wallet vault) (w u : W)
      → make_wallet vault a cfg w ≡ (ok s, u)
      → (s.account ≡ a) × HasNoSecret s
  unfolding make_wallet with_data
  make_wallet-HasNoSecret a cfg s w u h =
      elim (Bool-cases (not (is_empty cfg.password) || not (is_empty cfg.master_key))) [
        | inl e ↦
            let (d, v, h1, h2) =
              >>=-eq-ok (new_wallet_data a cfg.password cfg.master_key cfg.iv cfg.scrypt_config) _ w
                ((λ i.
                    (if sym e i then with_data vault a cfg else pure (without_data vault a cfg)) w)
                  ∙ h) in
            let is = ok-injective (λ i. (h2 i).0) in
            (
              λ i. (sym is i).account,
              (λ i. (sym is i).config.password, λ i. (sym is i).config.master_key),
            )
        | inr e ↦
            let same : (ok (without_data vault a cfg), w) ≡ (ok s, u) =
              (λ i. (if sym e i then with_data vault a cfg else pure (without_data vault a cfg)) w)
              ∙ h in
            let is = ok-injective (λ i. (same i).0) in
            let (p, q) = without_secret cfg.password cfg.master_key e in
            (
              λ i. (sym is i).account,
              ((λ i. (sym is i).config.password) ∙ p, (λ i. (sym is i).config.master_key) ∙ q),
            )
      ]

  restore-HasNoSecret :
      (cfg : WalletConfig) (d : Data) (a : Account) (address : Bytes) (s : Wallet vault) (w u : W)
      → restore vault cfg d a address w ≡ (ok s, u)
      → (s.account ≡ a) × HasNoSecret s
  unfolding restore new_wallet
  restore-HasNoSecret cfg d a address s w u h =
      let kept : Action W (Wallet vault) = pure (record {
        config = cleared vault cfg;
        account = a;
        address = address;
        wallet_data = some d;
      }) in
      let anew : Action W (Wallet vault) = (do
        iv ← lift (data_iv d)
        master_key ← lift (decrypt_master_key d cfg.password)
        new_wallet vault a (some (record cfg { iv = iv; master_key = master_key }))) in
      elim (Bool-cases (leb_ℤ (version d) wallet_version && leb_ℤ wallet_version (version d))) [
        | inl e ↦
            let same = (λ i. (if sym e i then kept else anew) w) ∙ h in
            let is = ok-injective (λ i. (same i).0) in
            (
              λ i. (sym is i).account,
              (λ i. (sym is i).config.password, λ i. (sym is i).config.master_key),
            )
        | inr e ↦
            let (iv, h1, r1) =
              lift-eq-ok (data_iv d) _ w ((λ i. (if sym e i then kept else anew) w) ∙ h) in
            let (key, h2, r2) = lift-eq-ok (decrypt_master_key d cfg.password) _ w r1 in
            let (merged, h3, r3) =
              lift-eq-ok
                (merge_wallet_config vault (some (record cfg { iv = iv; master_key = key }))) _ w
                r2 in
            make_wallet-HasNoSecret a merged s w u r3
      ]

  -- What was checked of the JSON of a wallet.
  pub record IsChecked (b : Bytes) (conf : Option WalletConfig) (s : Wallet vault) : Type 0 where
    pub config : WalletConfig
    pub read : Data
    pub config_eq : merge_wallet_config vault conf ≡ ok config
    pub read_eq : parse b ≡ ok read
    pub min_ok : ltb_ℤ (version read) min_version ≡ false
    pub max_ok : ltb_ℤ max_version (version read) ≡ false
    pub decrypted : decrypt_account read config.password ≡ ok s.account
    pub same_address : to_address s.account ≡ ok (data_address read)

  -- A wallet that is read from JSON, of the present version or an older one, has the account that the
  -- password decrypts, whose address is the one that the JSON holds; its version is compatible; and no
  -- password and no master key is left in the config of the wallet.
  pub wallet_from_json-IsChecked :
      (b : Bytes) (conf : Option WalletConfig) (s : Wallet vault) (w u : W)
      → wallet_from_json vault b conf w ≡ (ok s, u)
      → IsChecked b conf s × HasNoSecret s
  unfolding wallet_from_json
  wallet_from_json-IsChecked b conf s w u h =
      let (cfg, h1, r1) = lift-eq-ok (merge_wallet_config vault conf) _ w h in
      let (d, h2, r2) = lift-eq-ok (parse b) _ w r1 in
      let (h3, r3) =
        raise_if-eq-ok (ltb_ℤ (version d) min_version || ltb_ℤ max_version (version d))
          invalid_wallet_version _ w r2 in
      let (a, h4, r4) = lift-eq-ok (decrypt_account d cfg.password) _ w r3 in
      let (address, h5, r5) = lift-eq-ok (to_address a) _ w r4 in
      let (h6, r6) =
        raise_if-eq-ok (not (bytes_eq address (data_address d))) wrong_password _ w r5 in
      let (same, clean) = restore-HasNoSecret cfg d a address s w u r6 in
      let eq : address ≡ data_address d =
        bytes_eq_sound address (data_address d) (ground (arith, h6)) in
      (
        record {
          config = cfg;
          read = d;
          config_eq = h1;
          read_eq = h2;
          min_ok = ground (arith, h3);
          max_ok = ground (arith, h3);
          decrypted = h4 ∙ ap (λ (x : Account). ok x) (sym same);
          same_address = ap to_address same ∙ h5 ∙ ap (λ (x : Bytes). ok x) eq;
        },
        clean,
      )
