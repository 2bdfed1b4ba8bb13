-- ===== src/Action/Keeps.antt =====
-- What stays true of the shared state through a call, however that ends.
use nkn_sdk_go.Base.{Bool, true, false, if◌then◌else◌}
use nkn_sdk_go.Errors.{Outcome, ok, err, panic}
use nkn_sdk_go.Action.{Action, lift, continue, ◌>>=◌}

abbrev pub Keeps {ℓ κ μ} : {S : Type ℓ} {A : Type κ} → (S → Type μ) → Action S A → Type (ℓ ⊔ μ)
Keeps {S} P m = (s : S) → P s → P (m s).1

module _ {ℓ κ ν μ} {S : Type ℓ} {A : Type κ} {B : Type ν} (P : S → Type μ) where
  pub continue-Keeps :
      (o : Outcome A) (s : S) (f : A → Action S B)
      → P s
      → ((a : A) → Keeps P (f a))
      → P (continue (o, s) f).1
  continue-Keeps (ok a) s f now later = later a s now
  continue-Keeps (err e) s f now later = now
  continue-Keeps panic s f now later = now

  pub >>=-Keeps :
      (m : Action S A) (f : A → Action S B)
      → Keeps P m
      → ((a : A) → Keeps P (f a))
      → Keeps P (m >>= f)
  >>=-Keeps m f first later s now = continue-Keeps (m s).0 (m s).1 f (first s now) later

  -- A pure computation changes nothing.
  pub lift>>=-Keeps :
      (o : Outcome A) (f : A → Action S B) → ((a : A) → Keeps P (f a)) → Keeps P (lift o >>= f)
  lift>>=-Keeps o f later s now = continue-Keeps o s f now later

pub if-Keeps {ℓ κ μ} :
    {S : Type ℓ} {A : Type κ} (P : S → Type μ) (c : Bool) (m n : Action S A)
    → Keeps P m
    → Keeps P n
    → Keeps P (if c then m else n)
if-Keeps P true m n yes_branch no_branch = yes_branch
if-Keeps P false m n yes_branch no_branch = no_branch

-- The same of a result.
pub if-result {ℓ κ μ} :
    {S : Type ℓ} {A : Type κ} (P : S → Type μ) (c : Bool) (x y : Outcome A × S)
    → P x.1
    → P y.1
    → P (if c then x else y).1
if-result P true x y yes_branch no_branch = yes_branch
if-result P false x y yes_branch no_branch = no_branch

-- What follows a call has to keep the property only in the state that the call left.
pub continue-at {ℓ κ ν μ} :
    {S : Type ℓ} {A : Type κ} {B : Type ν} (P : S → Type μ) (r : Outcome A × S) (f : A → Action S B)
    → P r.1
    → ((a : A) → P (f a r.1).1)
    → P (continue r f).1
continue-at P (ok a, s) f now later = later a
continue-at P (err e, s) f now later = now
continue-at P (panic, s) f now later = now
