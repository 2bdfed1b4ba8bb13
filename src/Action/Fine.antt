-- ===== src/Action/Fine.antt =====
-- Calls that do not panic and leave a state of a kind `V`.
use nkn_sdk_go.Base.{◌≢◌, refl, Bool, true, false, if◌then◌else◌}
use nkn_sdk_go.Errors.{Outcome, ok, err, panic}
use nkn_sdk_go.Action.{Action, lift, continue, ◌>>=◌}

abbrev pub Fine {ℓ κ μ} : {S : Type ℓ} {A : Type κ} → (S → Type μ) → Outcome A × S → Type (κ ⊔ μ)
Fine V r = (r.0 ≢ panic) × V r.1

module _ {ℓ κ ν μ} {S : Type ℓ} {A : Type κ} {B : Type ν} (V : S → Type μ) where
  pub continue-Fine :
      (r : Outcome A × S) (f : A → Action S B)
      → Fine V r
      → ((a : A) (s : S) → V s → Fine V (f a s))
      → Fine V (continue r f)
  continue-Fine (ok a, s) f (calm, v) k = k a s v
  continue-Fine (err e, s) f (calm, v) k = (λ h. cc, v)
  continue-Fine (panic, s) f (calm, v) k = absurd (calm refl)

  pub lift-Fine :
      (o : Outcome A) (f : A → Action S B) (s : S)
      → o ≢ panic
      → V s
      → ((a : A) → Fine V (f a s))
      → Fine V ((lift o >>= f) s)
  lift-Fine (ok a) f s calm v k = k a
  lift-Fine (err e) f s calm v k = (λ h. cc, v)
  lift-Fine panic f s calm v k = absurd (calm refl)

module _ {ℓ κ μ} {S : Type ℓ} {A : Type κ} (V : S → Type μ) where
  pub if-Fine : (c : Bool) (x y : Outcome A × S) → Fine V x → Fine V y → Fine V (if c then x else y)
  if-Fine true x y f g = f
  if-Fine false x y f g = g

  pub ok-Fine : (a : A) (s : S) → V s → Fine V (ok a, s)
  ok-Fine a s v = (λ h. cc, v)
