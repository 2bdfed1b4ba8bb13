-- ===== src/Errors.antt =====
-- error.go: the errors that the package returns, and what a Go call that can fail comes back with.
use nkn_sdk_go.Base.{Bool, true, false, ◌≡◌, refl, ◌⊎◌, inl, inr}
use nkn_sdk_go.Base.Int.{ℤ}

-- The package's error values; `external` is an error that code outside the repository returned,
-- `coded` an errorWithCode, by its code.
pub data Error : Type 0 where
  closed key_not_in_map invalid_payload_type connect_failed no_destination : Error
  invalid_destination invalid_pubkey_or_name invalid_pubkey_size invalid_pubkey : Error
  message_oversize nil_websocket_conn decrypt_failed addr_not_allowed create_client_failed : Error
  nil_client not_nano_pay wrong_recipient nano_pay_closed insufficient_balance : Error
  invalid_amount expired_nano_pay expired_nano_pay_txn wrong_password : Error
  invalid_wallet_version unencrypted_message resolve_limit invalid_resolver : Error
  external : ℤ → Error
  coded : ℤ → Error

-- A call returns a value, returns an error, or panics.
pub data Outcome {ℓ} (A : Type ℓ) : Type ℓ where
  ok : A → Outcome A
  err : Error → Outcome A
  panic : Outcome A

infixl 5 ◌>>=◌ ◌>>◌
abbrev pub ◌>>=◌ {ℓ κ} : {A : Type ℓ} {B : Type κ} → Outcome A → (A → Outcome B) → Outcome B
ok a >>= f = f a
err e >>= f = err e
panic >>= f = panic

abbrev pub ◌>>◌ {ℓ} : {B : Type ℓ} → Outcome (Unit {0}) → Outcome B → Outcome B
m >> k = m >>= λ _. k

-- An early return of an error under a test.
abbrev pub fail_if : Bool → Error → Outcome (Unit {0})
fail_if true e = err e
fail_if false e = ok tt

-- A run-time panic under a test.
abbrev pub panic_if : Bool → Outcome (Unit {0})
panic_if true = panic
panic_if false = ok tt

module _ {ℓ κ} {A : Type ℓ} {B : Type κ} where
  -- A chain that succeeds began with a call that did.
  pub >>=-eq-ok :
      (first : Outcome A) (rest : A → Outcome B) {result : B}
      → (first >>= rest) ≡ ok result
      → (a : A) × (first ≡ ok a) × (rest a ≡ ok result)
  >>=-eq-ok (ok a) rest e = (a, refl, e)
  >>=-eq-ok (err x) rest e = cc
  >>=-eq-ok panic rest e = cc

pub Outcome-cases {ℓ} :
    {A : Type ℓ} (o : Outcome A)
    → ((a : A) × (o ≡ ok a)) ⊎ (((e : Error) × (o ≡ err e)) ⊎ (o ≡ panic))
Outcome-cases (ok a) = inl (a, refl)
Outcome-cases (err e) = inr (inl (e, refl))
Outcome-cases panic = inr (inr refl)

pub ok-injective {ℓ} : {A : Type ℓ} {a b : A} → ok a ≡ ok b → a ≡ b
ok-injective h = cc
