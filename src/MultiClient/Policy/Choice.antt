-- ===== src/MultiClient/Policy/Choice.antt =====
-- multiclient.go: what `getClientsByPolicy` promises of the clients that it chooses.
use nkn_sdk_go.Base.{
  ◌≡◌, refl, sym, ap, ◌∙◌, Bool, true, false, List, [], ◌∷◌, Option, if◌then◌else◌, Bool-cases, ◌⊎◌,
  inl, inr, All,
}
use nkn_sdk_go.Base.Int.{ℤ}
use nkn_sdk_go.Client.State.{Client}
use nkn_sdk_go.MultiClient.Policy.{
  any_connected, all_connected, Clients, is_sending, or_all, first_connected, connected_ids,
  clients_by_policy,
}

All-if :
    (P : ℤ → Type 0) (b : Bool) (xs ys : List ℤ)
    → (b ≡ true → All P xs)
    → (b ≡ false → All P ys)
    → All P (if b then xs else ys)
All-if P true xs ys f g = f refl
All-if P false xs ys f g = g refl

module _ {W : Type 0} where
  -- There is a client with this number that satisfies a test.
  abbrev pub Has : (Option (Client W) → Type 0) → ℤ → Clients W → Type 0
  Has P i [] = ⊥
  Has P i ((j, c) ∷ cs) = ((j ≡ i) × P c) ⊎ Has P i cs

  abbrev pub IsSending : Option (Client W) → Type 0
  IsSending c = is_sending c ≡ true

  All-weaken :
      (P : Option (Client W) → Type 0) (e : ℤ × Option (Client W)) (cs : Clients W) (is : List ℤ)
      → All (λ i. Has P i cs) is
      → All (λ i. Has P i (e ∷ cs)) is
  All-weaken P e cs [] a = tt
  All-weaken P e cs (i ∷ is) (h, a) = (inr h, All-weaken P e cs is a)

  connected_ids-All : (cs : Clients W) → All (λ i. Has IsSending i cs) (connected_ids cs)
  unfolding connected_ids
  connected_ids-All [] = tt
  connected_ids-All ((i, c) ∷ cs) =
      let rest = All-weaken IsSending (i, c) cs (connected_ids cs) (connected_ids-All cs) in
      All-if _ (is_sending c) (i ∷ connected_ids cs) (connected_ids cs) (λ e. (inl (refl, e), rest))
        (λ _. rest)

  first_connected-All : (cs : Clients W) → All (λ i. Has IsSending i cs) (first_connected cs)
  unfolding first_connected
  first_connected-All [] = tt
  first_connected-All ((i, c) ∷ cs) =
      let rest = All-weaken IsSending (i, c) cs (first_connected cs) (first_connected-All cs) in
      All-if _ (is_sending c) (i ∷ []) (first_connected cs) (λ e. (inl (refl, e), tt)) (λ _. rest)

  first_connected_some : (j : ℤ) (cs : Clients W) → Has IsSending j cs → first_connected cs ≡ [] → ⊥
  unfolding first_connected
  first_connected_some j [] k h = elim k [ ]
  first_connected_some j ((i, c) ∷ cs) (inl (e, s)) h = cc
  first_connected_some j ((i, c) ∷ cs) (inr k) h = elim (Bool-cases (is_sending c)) [
    | inl s ↦ cc (s, h)
    | inr s ↦
        first_connected_some j cs k (ap (λ b. if b then i ∷ [] else first_connected cs) (sym s) ∙ h)
  ]

  connected_ids_some : (j : ℤ) (cs : Clients W) → Has IsSending j cs → connected_ids cs ≡ [] → ⊥
  unfolding connected_ids
  connected_ids_some j [] k h = elim k [ ]
  connected_ids_some j ((i, c) ∷ cs) (inl (e, s)) h = cc
  connected_ids_some j ((i, c) ∷ cs) (inr k) h = elim (Bool-cases (is_sending c)) [
    | inl s ↦ cc (s, h)
    | inr s ↦
        connected_ids_some j cs k
          (ap (λ b. if b then i ∷ connected_ids cs else connected_ids cs) (sym s) ∙ h)
  ]

  or_all-All :
      (P : ℤ → Type 0) (cs : Clients W) (is : List ℤ)
      → (is ≡ [] → ⊥)
      → All P is
      → All P (or_all cs is)
  or_all-All P cs [] n a = absurd (n refl)
  or_all-All P cs (i ∷ is) n a = a

  -- Where some client is connected, the policies for any and for all of the connected clients choose
  -- connected clients only.
  pub connected_chosen :
      (now : ℤ) (j : ℤ) (cs : Clients W)
      → Has IsSending j cs
      → All (λ i. Has IsSending i cs) (clients_by_policy any_connected now cs)
        × All (λ i. Has IsSending i cs) (clients_by_policy all_connected now cs)
  unfolding clients_by_policy
  connected_chosen now j cs h = (
    or_all-All _ cs (first_connected cs) (first_connected_some j cs h) (first_connected-All cs),
    or_all-All _ cs (connected_ids cs) (connected_ids_some j cs h) (connected_ids-All cs),
  )
