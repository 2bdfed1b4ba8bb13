-- ===== src/Wallet/Tests.antt =====
-- wallet.go: a wallet whose JSON is its account, its password and its version in plain.
use nkn_sdk_go.Base.{◌≡◌, refl, sym, ap, ◌∙◌, if◌then◌else◌, [], ◌∷◌, some}
use nkn_sdk_go.Base.Int.{ℤ, pos}
use nkn_sdk_go.Base.Bytes.{Bytes, bytes_eq, bytes_eq_refl}
use nkn_sdk_go.Errors.{Outcome, ok, err, ok-injective, wrong_password, external}
use nkn_sdk_go.Wallet.{
  WalletConfig, Vault, Wallet, default_wallet_config, merge_wallet_config, new_wallet,
  wallet_from_json, to_json,
}
use nkn_sdk_go.Wallet.RoundTrip.{IsSound, IsDataOf, wallet_from_json-to_json}
use nkn_sdk_go.Wallet.Checked.{HasNoSecret, IsChecked, wallet_from_json-IsChecked}
use Prim.Native.Nat.{ℕ, suc}

-- The JSON is the data itself, an account and a password each in one byte.
pub record PlainData : Type 0 where
  pub account_byte : ℕ
  pub password : Bytes

abbrev read_plain : Bytes → Outcome PlainData
read_plain [] = err (external (pos 1))
read_plain (a ∷ password) = ok (record { account_byte = a; password = password })

-- A vault whose data all have one version; the world counts the data that are made.
abbrev vault_of_version : ℤ → Vault ℕ
vault_of_version v = record {
  Account = ℕ;
  Data = PlainData;
  default_servers = (104 ∷ []) ∷ [];
  copy_config = λ base c. ok c;
  wallet_address = λ a. a ∷ [];
  to_address = λ a. ok (a ∷ []);
  new_wallet_data =
      λ a password key iv scrypt w. (ok (record { account_byte = a; password = password }), suc w);
  parse = read_plain;
  print = λ d. ok (d.account_byte ∷ d.password);
  version = λ d. v;
  data_address = λ d. d.account_byte ∷ [];
  data_iv = λ d. ok [];
  decrypt_account =
      λ d password. if bytes_eq password d.password then ok d.account_byte else err wrong_password;
  decrypt_master_key = λ d password. ok [];
  check_password = λ d password. if bytes_eq password d.password then ok tt else err wrong_password;
  wallet_version = pos 2;
  min_version = pos 1;
  max_version = pos 2;
}

abbrev plain_vault : Vault ℕ
plain_vault = vault_of_version (pos 2)

plain_made :
    (a : ℕ) (password : Bytes) (d : PlainData)
    → IsDataOf plain_vault a password d
    → d ≡ record { account_byte = a; password = password }
plain_made a password d (key, iv, scrypt, w, u, h) = sym (ok-injective (λ i. (h i).0))

plain_decrypts :
    (a : ℕ) (password : Bytes) (d : PlainData)
    → IsDataOf plain_vault a password d
    → plain_vault.decrypt_account d password ≡ ok a
plain_decrypts a password d h =
    ap (λ x. plain_vault.decrypt_account x password) (plain_made a password d h)
    ∙ ap (λ t. if t then ok a else err wrong_password) (bytes_eq_refl password)

plain_vault-IsSound : IsSound plain_vault
plain_vault-IsSound = record {
  parse-print = λ d b h. ap read_plain (sym (ok-injective h));
  decrypts = plain_decrypts;
  has_address = λ a password d h.
      ap (λ (x : PlainData). ok (x.account_byte ∷ [])) (sym (plain_made a password d h));
  has_version = λ a password d h. refl;
  min_ok = refl;
  max_ok = refl;
}

-- A config with the password "s" and one server.
abbrev secret : WalletConfig
secret = record (default_wallet_config ((104 ∷ []) ∷ [])) { password = 115 ∷ [] }

abbrev made_wallet : Wallet plain_vault
made_wallet = record {
  config = default_wallet_config ((104 ∷ []) ∷ []);
  account = 7;
  address = 7 ∷ [];
  wallet_data = some (record { account_byte = 7; password = 115 ∷ [] });
}

secret_merged : merge_wallet_config plain_vault (some secret) ≡ ok secret
unfolding merge_wallet_config
secret_merged = refl

wallet_made : new_wallet plain_vault 7 (some secret) 0 ≡ (ok made_wallet, 1)
unfolding new_wallet
wallet_made = refl

wallet_written : to_json plain_vault (made_wallet, 1) ≡ (ok (7 ∷ 115 ∷ []), (made_wallet, 1))
unfolding to_json
wallet_written = refl

wallet_from_json-to_json_example :
    (t : Wallet plain_vault) × (wallet_from_json plain_vault (7 ∷ 115 ∷ []) (some secret) 1
      ≡ (ok t, 1))
    × (t.account ≡ 7)
wallet_from_json-to_json_example =
    wallet_from_json-to_json plain_vault plain_vault-IsSound 7 (some secret) (some secret) secret
      secret made_wallet made_wallet 0 1 1 (7 ∷ 115 ∷ []) secret_merged wallet_made wallet_written
      secret_merged refl

-- The same JSON, where its version is older than the present one.
abbrev old_vault : Vault ℕ
old_vault = vault_of_version (pos 1)

abbrev restored : Wallet old_vault
restored = record {
  config = default_wallet_config ((104 ∷ []) ∷ []);
  account = 7;
  address = 7 ∷ [];
  wallet_data = some (record { account_byte = 7; password = 115 ∷ [] });
}

old_read : wallet_from_json old_vault (7 ∷ 115 ∷ []) (some secret) 0 ≡ (ok restored, 1)
unfolding wallet_from_json
old_read = refl

wallet_from_json-IsChecked_example :
    IsChecked old_vault (7 ∷ 115 ∷ []) (some secret) restored × HasNoSecret old_vault restored
wallet_from_json-IsChecked_example =
    wallet_from_json-IsChecked old_vault (7 ∷ 115 ∷ []) (some secret) restored 0 1 old_read
