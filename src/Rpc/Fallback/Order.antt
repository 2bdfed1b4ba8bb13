-- ===== src/Rpc/Fallback/Order.antt =====
-- client.go, multiclient.go: which configs a call is made with, and in which order.
use nkn_sdk_go.Base.{
  ◌≡◌, ◌≢◌, refl, sym, ◌∙◌, Bool, true, false, ◌||◌, List, [], ◌∷◌, if◌then◌else◌, arith,
}
use mathlib.Core.List.{Permᴰ}
use nkn_sdk_go.Errors.{Error, Outcome, ok, err, panic}
use nkn_sdk_go.Action.{Action}
use nkn_sdk_go.Resolver.{is_empty}
use nkn_sdk_go.Rpc.Requests.{RpcConfig}
use nkn_sdk_go.Rpc.Fallback.{unless_ok, try_wallet, on_clients}

-- The configs that name a server, and the caller's own at the end.
abbrev pub usable : List RpcConfig → RpcConfig → List RpcConfig
usable [] own = own ∷ []
usable (c ∷ cs) own = if is_empty c.seed_rpc_server_addr then usable cs own else c ∷ usable cs own

module _ {W A : Type 0} (f : RpcConfig → Action W A) where
  -- The configs are asked one after the other, each in the world that the one before has left, until one
  -- does not fail; the last one's result is returned, however it ends.
  pub data AsksInTurn : List RpcConfig → W → Outcome A × W → Type 0 where
    last : {c : RpcConfig} {w : W} {r : Outcome A × W} → f c w ≡ r → AsksInTurn (c ∷ []) w r
    answers :
        {c : RpcConfig} {cs : List RpcConfig} {w u : W} {a : A}
        → f c w ≡ (ok a, u)
        → AsksInTurn (c ∷ cs) w (ok a, u)
    panics :
        {c : RpcConfig} {cs : List RpcConfig} {w u : W}
        → f c w ≡ (panic, u)
        → AsksInTurn (c ∷ cs) w (panic, u)
    fails :
        {c : RpcConfig} {cs : List RpcConfig} {w u : W} {e : Error} {r : Outcome A × W}
        → f c w ≡ (err e, u)
        → AsksInTurn cs u r
        → AsksInTurn (c ∷ cs) w r

  unless_ok-AsksInTurn :
      (c : RpcConfig) (cs : List RpcConfig) (next : Action W A) (w : W) (r : Outcome A × W)
      → f c w ≡ r
      → ((u : W) → AsksInTurn cs u (next u))
      → AsksInTurn (c ∷ cs) w (unless_ok r next)
  unfolding unless_ok
  unless_ok-AsksInTurn c cs next w (ok a, u) h rest = answers h
  unless_ok-AsksInTurn c cs next w (err e, u) h rest = fails h (rest u)
  unless_ok-AsksInTurn c cs next w (panic, u) h rest = panics h

  try-AsksInTurn :
      (c : RpcConfig) (cs : List RpcConfig) (next : Action W A) (w : W) (b : Bool)
      → ((u : W) → AsksInTurn cs u (next u))
      → AsksInTurn (if b then cs else c ∷ cs) w (if b then next w else unless_ok (f c w) next)
  try-AsksInTurn c cs next w true rest = rest w
  try-AsksInTurn c cs next w false rest = unless_ok-AsksInTurn c cs next w (f c w) refl rest

  -- A call of a multiclient asks, in the order of the loop, the servers that its clients' wallets know,
  -- skipping those that know none, and at last its own config.
  pub on_clients-AsksInTurn :
      (wallets : List RpcConfig) (own : RpcConfig) (w : W)
      → AsksInTurn (usable wallets own) w (on_clients wallets own f w)
  unfolding on_clients try_wallet
  on_clients-AsksInTurn [] own w = last refl
  on_clients-AsksInTurn (c ∷ cs) own w =
      try-AsksInTurn c (usable cs own) (on_clients cs own f) w (is_empty c.seed_rpc_server_addr)
        (λ u. on_clients-AsksInTurn cs own u)

abbrev pub is_ok {ℓ} : {A : Type ℓ} → Outcome A → Bool
is_ok (ok a) = true
is_ok (err e) = false
is_ok panic = false

module _ {A : Type 0} (answer : RpcConfig → Outcome A) where
  abbrev any_ok : List RpcConfig → RpcConfig → Bool
  any_ok [] own = is_ok (answer own)
  any_ok (c ∷ cs) own =
      if is_empty c.seed_rpc_server_addr then any_ok cs own else is_ok (answer c) || any_ok cs own

  any_ok-swap :
      (c d : RpcConfig) (cs : List RpcConfig) (own : RpcConfig)
      → any_ok (c ∷ d ∷ cs) own ≡ any_ok (d ∷ c ∷ cs) own
  any_ok-swap c d cs own = ground arith

  any_ok-perm :
      {cs ds : List RpcConfig} (own : RpcConfig) → Permᴰ cs ds → any_ok cs own ≡ any_ok ds own
  any_ok-perm own Permᴰ.nil = refl
  any_ok-perm own (Permᴰ.cons e p) = λ i.
      if is_empty (e i).seed_rpc_server_addr
      then any_ok-perm own p i
      else is_ok (answer (e i)) || any_ok-perm own p i
  any_ok-perm own (Permᴰ.swap {a = a} {b = b} {l = l} e q) =
      any_ok-swap a b l own ∙ (λ i. any_ok (q i ∷ e i ∷ l) own)
  any_ok-perm own (Permᴰ.trans p q) = any_ok-perm own p ∙ any_ok-perm own q

module _ {W A : Type 0} (answer : RpcConfig → Outcome A) where
  -- A call by which the world does not change.
  abbrev pub steady : RpcConfig → Action W A
  steady c w = (answer c, w)

  is_ok-unless_ok :
      (o : Outcome A) (next : Action W A) (w : W)
      → o ≢ panic
      → is_ok (unless_ok (o, w) next).0 ≡ (is_ok o || is_ok (next w).0)
  unfolding unless_ok
  is_ok-unless_ok (ok a) next w h = refl
  is_ok-unless_ok (err e) next w h = refl
  is_ok-unless_ok panic next w h = absurd (h refl)

  is_ok-on_clients :
      (wallets : List RpcConfig) (own : RpcConfig) (w : W)
      → ((c : RpcConfig) → answer c ≢ panic)
      → is_ok (on_clients wallets own steady w).0 ≡ any_ok answer wallets own
  unfolding on_clients try_wallet
  is_ok-on_clients [] own w h = refl
  is_ok-on_clients (c ∷ cs) own w h = ground (
    arith,
    is_ok-unless_ok (answer c) (on_clients cs own steady) w (h c),
    is_ok-on_clients cs own w h,
  )

  -- If the nodes answer a call the same at all times, and the call does not panic, then whether a call of
  -- a multiclient succeeds does not depend on the order in which the loop visits the clients, which Go
  -- leaves open.
  on_clients_any_order :
      (wallets others : List RpcConfig) (own : RpcConfig) (w : W)
      → ((c : RpcConfig) → answer c ≢ panic)
      → Permᴰ wallets others
      → is_ok (on_clients wallets own steady w).0 ≡ is_ok (on_clients others own steady w).0
  on_clients_any_order cs ds own w h p =
      is_ok-on_clients cs own w h ∙ any_ok-perm answer own p ∙ sym (is_ok-on_clients ds own w h)
