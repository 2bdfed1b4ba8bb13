-- ===== src/Wallet/RoundTrip.antt =====
-- wallet.go: a wallet that is written to JSON is read back, and what is read was checked.
use nkn_sdk_go.Base.{
  ◌≡◌, refl, sym, ap, ◌∙◌, subst, false, not, ◌||◌, Option, some, Bool-cases, inl, inr,
  if◌then◌else◌, arith,
}
use nkn_sdk_go.Base.Int.{ltb_ℤ}
use nkn_sdk_go.Base.Bytes.{Bytes, bytes_eq_refl}
use nkn_sdk_go.Errors.{Outcome, ok, err, panic, ok-injective}
use nkn_sdk_go.Action.{lift, pure, ◌>>=◌, >>=-eq-ok}
use nkn_sdk_go.Resolver.{is_empty}
use nkn_sdk_go.Wallet.{
  ScryptConfig, WalletConfig, Vault, Wallet, cleared, merge_wallet_config, with_data, without_data,
  make_wallet, new_wallet, restore, wallet_from_json, data_or_new, keep_data, get_wallet_data,
  to_json,
}

module _ {W : Type 0} (vault : Vault W) where
  open vault use {
    Account, Data, to_address, new_wallet_data, parse, print, version, data_address,
    decrypt_account, wallet_version, min_version, max_version,
  }

  -- The data was made for the account and the password.
  abbrev pub IsDataOf : Account → Bytes → Data → Type 0
  IsDataOf a password d =
      (key : Bytes) × (iv : Bytes) × (scrypt : ScryptConfig) × (w : W) × (u : W) × (new_wallet_data
          a password key iv scrypt w
        ≡ (ok d, u))

  -- What the package vault documents: data decrypts under its password to the account that it was made
  -- for, and holds its address and the present version, which is compatible; and JSON is read back.
  pub record IsSound : Type 0 where
    pub parse-print : (d : Data) (b : Bytes) → print d ≡ ok b → parse b ≡ ok d
    pub decrypts :
        (a : Account) (password : Bytes) (d : Data)
        → IsDataOf a password d
        → decrypt_account d password ≡ ok a
    pub has_address :
        (a : Account) (password : Bytes) (d : Data)
        → IsDataOf a password d
        → to_address a ≡ ok (data_address d)
    pub has_version :
        (a : Account) (password : Bytes) (d : Data)
        → IsDataOf a password d
        → version d ≡ wallet_version
    pub min_ok : ltb_ℤ wallet_version min_version ≡ false
    pub max_ok : ltb_ℤ max_version wallet_version ≡ false

  -- The data that a wallet holds or makes.
  held :
      (o : Option Data) (s s' : Wallet vault) (w u : W) (d e : Data)
      → data_or_new vault o s w ≡ (ok e, (s', u))
      → o ≡ some d
      → e ≡ d
  held o s s' w u d e h k =
      sym (ok-injective (λ i. (((λ j. data_or_new vault (sym k j) s w) ∙ h) i).0))

  kept :
      (s s' : Wallet vault) (r : Outcome Data × W) (u : W) (d : Data)
      → keep_data vault s r ≡ (ok d, (s', u))
      → (v : W) × (r ≡ (ok d, v))
  kept s s' (ok e, v) u d h = (v, λ i. (ok (ok-injective (λ j. (h j).0) i), v))
  kept s s' (err x, v) u d h = cc
  kept s s' (panic, v) u d h = cc

  with_data-IsDataOf :
      (a : Account) (cfg : WalletConfig) (s s' : Wallet vault) (w w1 w2 : W) (d : Data)
      → with_data vault a cfg w ≡ (ok s, w1)
      → get_wallet_data vault (s, w1) ≡ (ok d, (s', w2))
      → IsDataOf a cfg.password d
  unfolding with_data get_wallet_data
  with_data-IsDataOf a cfg s s' w w1 w2 d h g =
      let (e, u, h1, h2) =
        >>=-eq-ok (new_wallet_data a cfg.password cfg.master_key cfg.iv cfg.scrypt_config) _ w h in
      let same : d ≡ e =
        held s.wallet_data s s' w1 w2 e d g
          (sym (ap (λ (t : Wallet vault). t.wallet_data) (ok-injective (λ i. (h2 i).0)))) in
      (
        cfg.master_key,
        cfg.iv,
        cfg.scrypt_config,
        w,
        u,
        subst
            (λ x.
              new_wallet_data a cfg.password cfg.master_key cfg.iv cfg.scrypt_config w ≡ (ok x, u))
            (sym same) h1,
      )

  without_data-IsDataOf :
      (a : Account) (cfg : WalletConfig) (s s' : Wallet vault) (w1 w2 : W) (d : Data)
      → without_data vault a cfg ≡ s
      → get_wallet_data vault (s, w1) ≡ (ok d, (s', w2))
      → IsDataOf a cfg.password d
  unfolding get_wallet_data
  without_data-IsDataOf a cfg s s' w1 w2 d h g =
      let (v, made) =
        kept (without_data vault a cfg) s'
          (new_wallet_data a cfg.password cfg.master_key cfg.iv cfg.scrypt_config w1) w2 d
          ((λ i. get_wallet_data vault (h i, w1)) ∙ g) in
      (cfg.master_key, cfg.iv, cfg.scrypt_config, w1, v, made)

  made_data :
      (a : Account) (cfg : WalletConfig) (s s' : Wallet vault) (w w1 w2 : W) (d : Data)
      → make_wallet vault a cfg w ≡ (ok s, w1)
      → get_wallet_data vault (s, w1) ≡ (ok d, (s', w2))
      → IsDataOf a cfg.password d
  unfolding make_wallet
  made_data a cfg s s' w w1 w2 d h g =
      elim (Bool-cases (not (is_empty cfg.password) || not (is_empty cfg.master_key))) [
        | inl e ↦
            with_data-IsDataOf a cfg s s' w w1 w2 d
              ((λ i. (if sym e i then with_data vault a cfg else pure (without_data vault a cfg)) w)
                ∙ h)
              g
        | inr e ↦
            let same : (ok (without_data vault a cfg), w) ≡ (ok s, w1) =
              (λ i. (if sym e i then with_data vault a cfg else pure (without_data vault a cfg)) w)
              ∙ h in
            without_data-IsDataOf a cfg s s' w1 w2 d (ok-injective (λ i. (same i).0)) g
      ]

  -- What `WalletFromJSON` finds in the JSON of data that was made for an account, and the present version.
  restores :
      IsSound
      → (a : Account) (cfg : WalletConfig) (conf : Option WalletConfig) (b : Bytes) (d : Data)
        (w : W)
      → merge_wallet_config vault conf ≡ ok cfg
      → IsDataOf a cfg.password d
      → parse b ≡ ok d
      → (t : Wallet vault) × (wallet_from_json vault b conf w ≡ (ok t, w))
        × (t.account ≡ a)
        × (t.address ≡ data_address d)
        × (t.wallet_data ≡ some d)
  unfolding wallet_from_json restore
  restores sound a cfg conf b d w m made p = (
    record {
      config = cleared vault cfg;
      account = a;
      address = data_address d;
      wallet_data = some d;
    },
    ground (
      arith,
      m,
      p,
      sound.decrypts a cfg.password d made,
      sound.has_address a cfg.password d made,
      sound.has_version a cfg.password d made,
      sound.min_ok,
      sound.max_ok,
      bytes_eq_refl (data_address d),
    ),
    refl,
    refl,
    refl,
  )

  -- A wallet that is made with a config is written to JSON that, under a config with the same password, is
  -- read back to a wallet of the same account.
  pub wallet_from_json-to_json :
      IsSound
      → (a : Account) (conf conf' : Option WalletConfig) (cfg cfg' : WalletConfig)
        (s s' : Wallet vault) (w w1 w2 : W) (b : Bytes)
      → merge_wallet_config vault conf ≡ ok cfg
      → new_wallet vault a conf w ≡ (ok s, w1)
      → to_json vault (s, w1) ≡ (ok b, (s', w2))
      → merge_wallet_config vault conf' ≡ ok cfg'
      → cfg'.password ≡ cfg.password
      → (t : Wallet vault) × (wallet_from_json vault b conf' w2 ≡ (ok t, w2)) × (t.account ≡ a)
  unfolding new_wallet to_json
  wallet_from_json-to_json sound a conf conf' cfg cfg' s s' w w1 w2 b m h j m' same =
      let making : make_wallet vault a cfg w ≡ (ok s, w1) =
        (λ i. (lift (sym m i) >>= make_wallet vault a) w) ∙ h in
      let (d, (r, v), got, printed) = >>=-eq-ok (get_wallet_data vault) _ (s, w1) j in
      let made = made_data a cfg s r w w1 v d making got in
      let (t, read, account, address, holds) =
        restores sound a cfg' conf' b d w2 m' (subst (λ p. IsDataOf a p d) (sym same) made)
          (sound.parse-print d b (λ i. (printed i).0)) in
      (t, read, account)
