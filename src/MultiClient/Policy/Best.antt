-- ===== src/MultiClient/Policy/Best.antt =====
-- multiclient.go: the client that `CrossSendPolicyPreferStable` chooses.
use nkn_sdk_go.Base.{
  ◌≡◌, refl, sym, ap, ◌∙◌, subst, Bool, true, false, ◌&&◌, [], ◌∷◌, Option, some, none,
  if◌then◌else◌, ◌⊎◌, inl, inr, arith,
}
use nkn_sdk_go.Base.Int.{ℤ, pos, negsuc, ltb_ℤ, ◌≤ℤ◌}
use nkn_sdk_go.Client.State.{Client}
use nkn_sdk_go.MultiClient.Policy.{
  prefer_stable, Clients, is_sending, score_of, all_client_ids, or_all, best_client, if_found,
  clients_by_policy,
}
use nkn_sdk_go.MultiClient.Policy.Choice.{Has, IsSending}

and_left : (x y : Bool) → (x && y) ≡ true → x ≡ true
and_left true y h = refl
and_left false y h = cc

found : (i : ℤ) → pos 0 ≤ℤ i → if_found i ≡ i ∷ []
found i h = ground (arith, h)

module _ {W : Type 0} (now : ℤ) where
  -- A connected client with a score.
  abbrev pub Scores : ℤ → Option (Client W) → Type 0
  Scores n c = IsSending c × (score_of now c ≡ n)

  -- No connected client scores more.
  abbrev pub IsTop : ℤ → Clients W → Type 0
  IsTop n [] = Unit {0}
  IsTop n ((i, c) ∷ cs) = (IsSending c → score_of now c ≤ℤ n) × IsTop n cs

  from_step :
      (x : Bool) (i : ℤ) (c : Option (Client W)) (b r : ℤ × ℤ) (cs : Clients W)
      → (x ≡ true → IsSending c)
      → (r ≡ (if x then (i, score_of now c) else b)) ⊎ Has (Scores r.1) r.0 cs
      → (r ≡ b) ⊎ Has (Scores r.1) r.0 ((i, c) ∷ cs)
  from_step true i c b r cs s (inl e) =
      inr (inl (ap (λ z. z.0) (sym e), (s refl, ap (λ z. z.1) (sym e))))
  from_step false i c b r cs s (inl e) = inl e
  from_step x i c b r cs s (inr h) = inr (inr h)

  pub best_client_from :
      (b : ℤ × ℤ) (cs : Clients W)
      → (best_client now b cs ≡ b)
        ⊎ Has (Scores (best_client now b cs).1) (best_client now b cs).0 cs
  unfolding best_client
  best_client_from b [] = inl refl
  best_client_from b ((i, c) ∷ cs) =
      let x : Bool = is_sending c && ltb_ℤ (b.1) (score_of now c) in
      let b' : ℤ × ℤ = if x then (i, score_of now c) else b in
      from_step x i c b (best_client now b' cs) cs (and_left (is_sending c) _)
        (best_client_from b' cs)

  top_step :
      (x : Bool) (i : ℤ) (c : Option (Client W)) (b : ℤ × ℤ) (n : ℤ)
      → x ≡ (is_sending c && ltb_ℤ (b.1) (score_of now c))
      → (if x then (i, score_of now c) else b).1 ≤ℤ n
      → (b.1 ≤ℤ n) × (IsSending c → score_of now c ≤ℤ n)
  top_step true i c b n e h = ground (arith, e, h)
  top_step false i c b n e h = (h, λ s. ground (arith, e, h, s))

  pub best_client-IsTop :
      (b : ℤ × ℤ) (cs : Clients W)
      → (b.1 ≤ℤ (best_client now b cs).1) × IsTop (best_client now b cs).1 cs
  unfolding best_client
  best_client-IsTop b [] = (omega arith, tt)
  best_client-IsTop b ((i, c) ∷ cs) =
      let x : Bool = is_sending c && ltb_ℤ (b.1) (score_of now c) in
      let b' : ℤ × ℤ = if x then (i, score_of now c) else b in
      let (le, top) = best_client-IsTop b' cs in
      let (l, m) = top_step x i c b (best_client now b' cs).1 refl le in (l, (m, top))

  score_nonneg : (c : Option (Client W)) → pos 0 ≤ℤ score_of now c
  score_nonneg none = omega arith
  score_nonneg (some c) = omega arith

  top_nonneg : (n j : ℤ) (cs : Clients W) → Has IsSending j cs → IsTop n cs → pos 0 ≤ℤ n
  top_nonneg n j [] h t = elim h [ ]
  top_nonneg n j ((i, c) ∷ cs) (inl (e, s)) (m, t) = omega (arith, m s, score_nonneg c)
  top_nonneg n j ((i, c) ∷ cs) (inr h) (m, t) = top_nonneg n j cs h t

  -- The numbers of the clients are not negative, as without the original client.
  abbrev pub HasNoOriginal : Clients W → Type 0
  HasNoOriginal [] = Unit {0}
  HasNoOriginal ((i, c) ∷ cs) = (pos 0 ≤ℤ i) × HasNoOriginal cs

  id_nonneg :
      (P : Option (Client W) → Type 0) (i : ℤ) (cs : Clients W)
      → HasNoOriginal cs
      → Has P i cs
      → pos 0 ≤ℤ i
  id_nonneg P i [] n h = elim h [ ]
  id_nonneg P i ((j, c) ∷ cs) (m, n) (inl (e, p)) = subst (λ k. pos 0 ≤ℤ k) e m
  id_nonneg P i ((j, c) ∷ cs) (m, n) (inr h) = id_nonneg P i cs n h

  chosen :
      (r : ℤ × ℤ) (j : ℤ) (cs : Clients W)
      → Has IsSending j cs
      → HasNoOriginal cs
      → IsTop r.1 cs
      → (r ≡ (negsuc 0, negsuc 0)) ⊎ Has (Scores r.1) r.0 cs
      → (or_all cs (if_found r.0) ≡ r.0 ∷ []) × Has (Scores r.1) r.0 cs
  chosen r j cs s n t (inl e) =
      absurd (omega (arith, subst (λ z. pos 0 ≤ℤ z.1) e (top_nonneg r.1 j cs s t)))
  chosen r j cs s n t (inr h) = (ap (or_all cs) (found r.0 (id_nonneg (Scores r.1) r.0 cs n h)), h)

  -- Without an original client, and with some client connected, the policy for the most stable client
  -- chooses one: a connected client with the highest score of all that are connected.
  pub prefer_stable_chosen :
      (j : ℤ) (cs : Clients W)
      → Has IsSending j cs
      → HasNoOriginal cs
      → (i : ℤ) × (n : ℤ) × (clients_by_policy prefer_stable now cs ≡ i ∷ [])
        × Has (Scores n) i cs
        × IsTop n cs
  unfolding clients_by_policy
  prefer_stable_chosen j cs s n =
      let r : ℤ × ℤ = best_client now (negsuc 0, negsuc 0) cs in
      let top = (best_client-IsTop (negsuc 0, negsuc 0) cs).1 in
      let (e, h) = chosen r j cs s n top (best_client_from (negsuc 0, negsuc 0) cs) in
      (r.0, r.1, e, h, top)

  -- Only the original client, whose number is -1, is connected, or none.
  abbrev pub OnlyOriginal : Clients W → Type 0
  OnlyOriginal [] = Unit {0}
  OnlyOriginal ((i, c) ∷ cs) = (IsSending c → i ≡ negsuc 0) × OnlyOriginal cs

  original_id : (n i : ℤ) (cs : Clients W) → OnlyOriginal cs → Has (Scores n) i cs → i ≡ negsuc 0
  original_id n i [] o h = elim h [ ]
  original_id n i ((j, c) ∷ cs) (o, os) (inl (e, (s, q))) = sym e ∙ o s
  original_id n i ((j, c) ∷ cs) (o, os) (inr h) = original_id n i cs os h

  not_chosen :
      (r : ℤ × ℤ) (cs : Clients W)
      → OnlyOriginal cs
      → (r ≡ (negsuc 0, negsuc 0)) ⊎ Has (Scores r.1) r.0 cs
      → or_all cs (if_found r.0) ≡ all_client_ids cs
  not_chosen r cs o (inl e) = rw e refl
  not_chosen r cs o (inr h) = rw (original_id r.1 r.0 cs o h) refl

  -- The original client is never chosen for being stable: where it is the only connected client, all
  -- clients are used, those that are not connected too, as where none is connected.
  pub prefer_stable_original :
      (cs : Clients W)
      → OnlyOriginal cs
      → clients_by_policy prefer_stable now cs ≡ all_client_ids cs
  unfolding clients_by_policy
  prefer_stable_original cs o =
      not_chosen (best_client now (negsuc 0, negsuc 0) cs) cs o
        (best_client_from (negsuc 0, negsuc 0) cs)
