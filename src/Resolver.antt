-- ===== src/Resolver.antt =====
-- resolver.go: resolving a destination through a list of resolvers, again and again up to a depth.
-- A resolver is code outside the repository: a parameter, which may change the outside world `W`.
pub mod Chain
mod Tests
use nkn_sdk_go.Base.{ℕ, zero, suc, Bool, true, false, ◌≡◌, refl, List, [], ◌∷◌, if◌then◌else◌}
use nkn_sdk_go.Base.Int.{ℤ, pos_part}
use nkn_sdk_go.Base.Bytes.{Bytes}
use nkn_sdk_go.Errors.{Outcome, ok, err, panic, resolve_limit, invalid_destination}
use nkn_sdk_go.Action.{Action, pure, raise, ◌>>=◌}

abbrev pub Resolver {ℓ} : Type ℓ → Type ℓ
Resolver W = Bytes → Action W Bytes

abbrev pub is_empty {ℓ} : {A : Type ℓ} → List A → Bool
is_empty [] = true
is_empty (x ∷ xs) = false

module _ {ℓ} {W : Type ℓ} where
  -- `ResolveDest`: the first non-empty answer, and whether there was one.
  pub resolve_dest : List (Resolver W) → Bytes → Action W (Bytes × Bool)
  resolve_dest [] dest = pure (dest, false)
  resolve_dest (r ∷ rs) dest = do
    d ← r dest
    if is_empty d then resolve_dest rs dest else pure (d, true)

  -- The loop of `ResolveDestN`, with the rounds left.
  pub resolve_rounds : List (Resolver W) → ℕ → Bytes → Action W Bytes
  resolve_rounds rs zero dest = raise resolve_limit
  resolve_rounds rs (suc n) dest = do
    (d, is_resolved) ← resolve_dest rs dest
    if is_resolved then resolve_rounds rs n d else pure dest

  -- `ResolveDestN`: a depth of zero or less makes no round.
  pub resolve_dest_n : List (Resolver W) → ℤ → Bytes → Action W Bytes
  unfolding resolve_rounds
  resolve_dest_n rs depth dest = resolve_rounds rs (pos_part depth) dest

  -- The loop of `ResolveDests`: what fails to resolve is logged and left out.
  pub resolve_each : List (Resolver W) → ℤ → List Bytes → Action W (List Bytes)
  resolve_each rs depth [] w = (ok [], w)
  resolve_each rs depth (dest ∷ dests) w =
      let (o, w') = resolve_dest_n rs depth dest w in
      elim o [
        | ok d ↦ (do ds ← resolve_each rs depth dests; pure (d ∷ ds)) w'
        | err e ↦ resolve_each rs depth dests w'
        | panic ↦ (panic, w')
      ]

  -- `ResolveDests`.
  pub resolve_dests : List (Resolver W) → ℤ → List Bytes → Action W (List Bytes)
  unfolding resolve_each
  resolve_dests rs depth dests = if is_empty dests then pure [] else do
    ds ← resolve_each rs depth dests
    if is_empty ds then raise invalid_destination else pure ds
