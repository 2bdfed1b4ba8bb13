-- ===== src/MultiClient/Reconnect/Asked.antt =====
-- multiclient.go: the clients of a multiclient after `Reconnect`.
use nkn_sdk_go.Base.{◌≡◌, ◌≢◌, refl, sym, ap, ◌∙◌, subst, Bool, true, false, [], ◌∷◌, none, some}
use nkn_sdk_go.Errors.{Outcome, ok}
use nkn_sdk_go.Client.State.{waiting, reconnect}
use nkn_sdk_go.Client.State.Invariant.{IsValid, reconnect-IsValid, reconnect-asks}
use nkn_sdk_go.MultiClient.Policy.{Clients}
use nkn_sdk_go.MultiClient.Sending.{MultiClient}
use nkn_sdk_go.MultiClient.Reconnect.{then_others, reconnect_each, reconnect_all}

module _ {W : Type 0} where
  -- All clients are there and well formed.
  abbrev pub AllValid : Clients W → Type 0
  AllValid [] = Unit
  AllValid ((i, none) ∷ cs) = ⊥
  AllValid ((i, some c) ∷ cs) = IsValid c × AllValid cs

  -- The same clients in the same order, as well formed; those that are open have a request to reconnect.
  abbrev pub AreAsked : Clients W → Clients W → Type 0
  AreAsked [] [] = Unit
  AreAsked ((i, none) ∷ cs) ds = ⊥
  AreAsked ((i, some c) ∷ cs) [] = ⊥
  AreAsked ((i, some c) ∷ cs) ((j, none) ∷ ds) = ⊥
  AreAsked ((i, some c) ∷ cs) ((j, some d) ∷ ds) =
      (i ≡ j)
      × IsValid d
      × (d.is_closed ≡ c.is_closed)
      × (c.is_closed ≡ false → d.handler ≢ waiting)
      × AreAsked cs ds
  AreAsked [] (d ∷ ds) = ⊥

  reconnect_each-AreAsked :
      (cs : Clients W)
      → AllValid cs
      → ((reconnect_each cs).0 ≡ ok tt) × AreAsked cs (reconnect_each cs).1
  unfolding reconnect_each
  reconnect_each-AreAsked [] v = (refl, tt)
  reconnect_each-AreAsked ((i, none) ∷ cs) v = absurd v
  reconnect_each-AreAsked ((i, some c) ∷ cs) (v, vs) =
      let (fine, v', same) = reconnect-IsValid none c v in
      let (fine', asked) = reconnect_each-AreAsked cs vs in
      let d = (reconnect none c).1 in
      let rest = reconnect_each cs in
      let step : then_others (reconnect none c).0 (i, some d) cs rest
          ≡ (rest.0, (i, some d) ∷ rest.1) =
        ap (λ o. then_others o (i, some d) cs rest) fine in
      (
        ap (λ r. r.0) step ∙ fine',
        subst (λ (r : Outcome (Unit {0}) × Clients W). AreAsked ((i, some c) ∷ cs) r.1) (sym step)
            (refl, v', same, reconnect-asks none c v, asked),
      )

  -- `Reconnect` of an open multiclient whose clients are well formed returns without a panic, and every client
  -- that is open has a request to reconnect; the clients stay well formed, and none is opened or closed. A
  -- closed multiclient is left as it is.
  pub reconnect_all-AreAsked :
      (is_closed : Bool) (m : MultiClient W)
      → AllValid m.clients
      → ((reconnect_all is_closed m).0 ≡ ok tt)
        × (is_closed ≡ true → reconnect_all is_closed m ≡ (ok tt, m))
        × (is_closed ≡ false → AreAsked m.clients (reconnect_all is_closed m).1.clients)
  unfolding reconnect_all
  reconnect_all-AreAsked true m v = (refl, λ h. refl, λ h. cc)
  reconnect_all-AreAsked false m v =
      let (fine, asked) = reconnect_each-AreAsked m.clients v in (fine, λ h. cc, λ h. asked)
