-- ===== src/Client/Handling/Steps.antt =====
-- client.go: what one step of the handling of a JSON message leaves, and rules for a chain of steps.
use nkn_sdk_go.Base.{◌≡◌, ◌≢◌, refl, Bool, true, false, Option, none, some, if◌then◌else◌, arith}
use nkn_sdk_go.Base.Int.{ℤ}
use nkn_sdk_go.Base.Bytes.{Bytes}
use nkn_sdk_go.Errors.{Outcome, ok, err, panic, coded}
use nkn_sdk_go.Action.{Action, continue, raise, lift, modify, ◌>>=◌}
use nkn_sdk_go.Channel.{try_send}
use nkn_sdk_go.Client.State.{challenge_do, handle_set_client}
use nkn_sdk_go.Client.State.Invariant.{IsValid, handle_set_client-IsValid}
use nkn_sdk_go.Client.Handling.{Reader, on_client, member_of}

pub member_of_there : (o : Option Bytes) → o ≢ none → member_of o ≢ panic
member_of_there none there h = there refl
member_of_there (some raw) there h = cc

pub member_of_ok : (o : Option Bytes) (raw : Bytes) → member_of o ≡ ok raw → o ≡ some raw
member_of_ok none raw h = cc
member_of_ok (some x) raw h = cc

module _ {W : Type 0} where
  -- A call has not panicked and the client is well formed; that it is closed has the reason `R`.
  abbrev pub Good : Type 0 → Outcome (Unit {0}) × Reader W → Type 0
  Good R (o, r) = (o ≢ panic) × IsValid r.inbox.client × (r.inbox.client.is_closed ≡ true → R)

  -- A client that is open and well formed.
  abbrev pub IsOpen : Reader W → Type 0
  IsOpen r = IsValid r.inbox.client × (r.inbox.client.is_closed ≡ false)

  pub raise-Good : (R : Type 0) (r : Reader W) (z : ℤ) → IsOpen r → Good R (raise (coded z) r)
  raise-Good R r z (v, open_client) = (λ h. cc, v, λ h. cc)

  pub lift-Good :
      {A : Type 0} (R : Type 0) (o : Outcome A) (f : A → Action (Reader W) (Unit {0}))
      (r : Reader W)
      → IsOpen r
      → o ≢ panic
      → ((a : A) → o ≡ ok a → Good R (f a r))
      → Good R ((lift o >>= f) r)
  lift-Good R (ok a) f r v calm k = k a refl
  lift-Good R (err e) f r (v, open_client) calm k = (λ h. cc, v, λ h. cc)
  lift-Good R panic f r v calm k = absurd (calm refl)

  pub continue-Good :
      {A : Type 0} (R : Type 0) (s : Outcome A × Reader W) (f : A → Action (Reader W) (Unit {0}))
      → s.0 ≢ panic
      → IsOpen s.1
      → ((a : A) → Good R (f a s.1))
      → Good R (continue s f)
  continue-Good R (ok a, r) f calm v k = k a
  continue-Good R (err e, r) f calm (v, open_client) k = (λ h. cc, v, λ h. cc)
  continue-Good R (panic, r) f calm v k = absurd (calm refl)

  -- A send on the open channel for the answer to a challenge.
  pub challenge_do-Good :
      (R : Type 0) (x : Bytes × Bytes) (r : Reader W)
      → IsOpen r
      → Good R (on_client (challenge_do (λ e. try_send e x)) r)
  challenge_do-Good R x r (v, open_client) = ground (arith, v.challenge_closed, open_client)

  pub handle_set_client-Good :
      (R : Type 0) (hash : Bytes) (now : ℤ) (r : Reader W)
      → IsOpen r
      → Good R (on_client (handle_set_client hash now) r)
  handle_set_client-Good R hash now r (v, open_client) =
      let (fine, v', same) = handle_set_client-IsValid hash now r.inbox.client v in
      (λ h. cc (fine, h), v', λ h. cc (same, open_client, h))

  pub update-Good :
      (R : Type 0) (hash : Bytes) (r : Reader W)
      → IsOpen r
      → Good R (on_client (modify (λ c. record c { sig_chain_block_hash = hash })) r)
  update-Good R hash r (v, open_client) = (λ h. cc, ground (arith, v), λ h. cc)

  pub if-Good :
      (R : Type 0) (b : Bool) (x y : Action (Reader W) (Unit {0})) (r : Reader W)
      → (b ≡ true → Good R (x r))
      → (b ≡ false → Good R (y r))
      → Good R ((if b then x else y) r)
  if-Good R true x y r hx hy = hx refl
  if-Good R false x y r hx hy = hy refl
