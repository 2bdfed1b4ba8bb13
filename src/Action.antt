-- ===== src/Action.antt =====
-- A Go call that reads and writes shared state `S`: what it returns, and the state it leaves behind,
-- also when it returns an error.
pub mod Keeps
pub mod Fine
use nkn_sdk_go.Base.{Bool, true, false, ◌≡◌, refl}
use nkn_sdk_go.Errors.{Error, Outcome, ok, err, panic}

abbrev pub Action {ℓ κ} : Type ℓ → Type κ → Type (ℓ ⊔ κ)
Action S A = S → Outcome A × S

module _ {ℓ κ} {S : Type ℓ} {A : Type κ} where
  abbrev pub pure : A → Action S A
  pure a s = (ok a, s)

  abbrev pub raise : Error → Action S A
  raise e s = (err e, s)

  abbrev pub lift : Outcome A → Action S A
  lift o s = (o, s)

  abbrev pub gets : (S → A) → Action S A
  gets f s = (ok (f s), s)

-- What follows a call, by how that ended.
abbrev pub continue {ℓ κ μ} :
    {S : Type ℓ} {A : Type κ} {B : Type μ} → Outcome A × S → (A → Action S B) → Outcome B × S
continue (ok a, s) f = f a s
continue (err e, s) f = (err e, s)
continue (panic, s) f = (panic, s)

infixl 5 ◌>>=◌ ◌>>◌
abbrev pub ◌>>=◌ {ℓ κ μ} :
    {S : Type ℓ} {A : Type κ} {B : Type μ} → Action S A → (A → Action S B) → Action S B
◌>>=◌ m f s = continue (m s) f

abbrev pub ◌>>◌ {ℓ κ} : {S : Type ℓ} {B : Type κ} → Action S (Unit {0}) → Action S B → Action S B
m >> k = m >>= λ _. k

abbrev pub modify {ℓ} : {S : Type ℓ} → (S → S) → Action S (Unit {0})
modify f s = (ok tt, f s)

abbrev pub raise_if {ℓ} : {S : Type ℓ} → Bool → Error → Action S (Unit {0})
raise_if true e s = (err e, s)
raise_if false e s = (ok tt, s)

continue-eq-ok {ℓ κ μ} :
    {S : Type ℓ} {A : Type κ} {B : Type μ} (r : Outcome A × S) (f : A → Action S B) {b : B} {t : S}
    → continue r f ≡ (ok b, t)
    → (a : A) × (s : S) × (r ≡ (ok a, s)) × (f a s ≡ (ok b, t))
continue-eq-ok (ok a, s) f h = (a, s, refl, h)
continue-eq-ok (err e, s) f h = cc
continue-eq-ok (panic, s) f h = cc

-- Inversion of a chain that succeeds.
pub >>=-eq-ok {ℓ κ μ} :
    {S : Type ℓ} {A : Type κ} {B : Type μ} (m : Action S A) (f : A → Action S B) (s : S) {b : B}
    {t : S}
    → (m >>= f) s ≡ (ok b, t)
    → (a : A) × (s' : S) × (m s ≡ (ok a, s')) × (f a s' ≡ (ok b, t))
>>=-eq-ok m f s h = continue-eq-ok (m s) f h

-- A step that succeeds is followed by the rest.
pub >>-step {ℓ κ} :
    {S : Type ℓ} {B : Type κ} (m : Action S (Unit {0})) (k : Action S B) (s t : S)
    → m s ≡ (ok tt, t)
    → (m >> k) s ≡ k t
>>-step m k s t h i = continue (h i) (λ _. k)

pub lift-eq-ok {ℓ κ μ} :
    {S : Type ℓ} {A : Type κ} {B : Type μ} (o : Outcome A) (f : A → Action S B) (s : S) {b : B}
    {t : S}
    → (lift o >>= f) s ≡ (ok b, t)
    → (a : A) × (o ≡ ok a) × (f a s ≡ (ok b, t))
lift-eq-ok (ok a) f s h = (a, refl, h)
lift-eq-ok (err e) f s h = cc
lift-eq-ok panic f s h = cc

pub raise_if-eq-ok {ℓ κ} :
    {S : Type ℓ} {B : Type κ} (c : Bool) (e : Error) (k : Action S B) (s : S) {b : B} {t : S}
    → (raise_if c e >> k) s ≡ (ok b, t)
    → (c ≡ false) × (k s ≡ (ok b, t))
raise_if-eq-ok true e k s h = cc
raise_if-eq-ok false e k s h = (refl, h)
