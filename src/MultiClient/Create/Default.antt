-- ===== src/MultiClient/Create/Default.antt =====
-- multiclient.go: the default client of a multiclient, and when `NewMultiClient` fails.
use nkn_sdk_go.Base.{
  ℕ, ◌≡◌, refl, sym, subst, ◌∙◌, Bool, true, false, List, [], ◌∷◌, Option, none, some, All,
  Bool-cases, inl, inr, arith,
}
use mathlib.Core.List.{Memᴰ}
use mathlib.Core.List.Memᴰ
use nkn_sdk_go.Base.Int.{ℤ, pos, ltb_ℤ, ◌≤ℤ◌, ◌<ℤ◌}
use nkn_sdk_go.Errors.{ok, err, create_client_failed}
use nkn_sdk_go.MultiClient.Create.{
  Made, made, not_made, Creation, new_creation, choose_default, finish, finish_all, all_done,
  Returns, takes_success, takes_fail,
}

ltb_ℤ→<ℤ : (i j : ℤ) → ltb_ℤ i j ≡ true → i <ℤ j
ltb_ℤ→<ℤ i j h = ground (arith, h)

ltb_ℤ→≤ℤ : (i j : ℤ) → ltb_ℤ i j ≡ false → j ≤ℤ i
ltb_ℤ→≤ℤ i j h = ground (arith, h)

module _ {C : Type 0} where
  -- There is a default client just when there is one at all, and it is one of them, under the number that
  -- is noted.
  abbrev pub IsEntered : Option C → ℤ → List (ℤ × C) → Type 0
  IsEntered none idx cs = cs ≡ []
  IsEntered (some c) idx cs = Memᴰ (idx, c) cs

  abbrev pub is_some : Option C → Bool
  is_some none = false
  is_some (some c) = true

  -- No client has a smaller number than the default client, and `success` was sent to just when there is
  -- a client.
  pub record HasSmallest (n : ℕ) (s : Creation C) : Type 0 where
    pub entered : IsEntered s.default_client s.default_client_idx s.clients
    pub smallest : All (λ e. s.default_client_idx ≤ℤ e.0) s.clients
    pub below : s.default_client_idx ≤ℤ pos n
    pub unset : is_some s.default_client ≡ false → s.default_client_idx ≡ pos n
    pub told : s.success ≡ is_some s.default_client

  All-weaken :
      (i j : ℤ) (cs : List (ℤ × C)) → i ≤ℤ j → All (λ e. j ≤ℤ e.0) cs → All (λ e. i ≤ℤ e.0) cs
  All-weaken i j [] h a = tt
  All-weaken i j (c ∷ cs) h a = (omega (arith, h, a.0), All-weaken i j cs h a.1)

  -- The first client has a number below that of none.
  late_default :
      (n : ℕ) (i : ℤ) (d : Option C) (idx : ℤ)
      → i <ℤ pos n
      → idx ≤ℤ i
      → (is_some d ≡ false → idx ≡ pos n)
      → is_some d ≡ true
  late_default n i none idx below le unset =
      absurd (omega (arith, below, subst (λ z. z ≤ℤ i) (unset refl) le))
  late_default n i (some c) idx below le unset = refl

  IsEntered-tail :
      (d : Option C) (idx : ℤ) (e : ℤ × C) (cs : List (ℤ × C))
      → is_some d ≡ true
      → IsEntered d idx cs
      → IsEntered d idx (e ∷ cs)
  IsEntered-tail none idx e cs h m = cc
  IsEntered-tail (some c) idx e cs h m = Memᴰ.tail m

  finish-HasSmallest :
      (n : ℕ) (i : ℤ) (o : Made C) (s : Creation C)
      → i <ℤ pos n
      → HasSmallest n s
      → HasSmallest n (finish i o s)
  unfolding finish choose_default
  finish-HasSmallest n i (not_made e) s b h = record {
    entered = h.entered;
    smallest = h.smallest;
    below = h.below;
    unset = h.unset;
    told = h.told;
  }
  finish-HasSmallest n i (made c) s b h = elim (Bool-cases s.is_closed) [
    | inl closed ↦ simp closed h
    | inr open_ ↦ elim (Bool-cases (ltb_ℤ i s.default_client_idx)) [
      | inl lt ↦
          let i_lt = ltb_ℤ→<ℤ i s.default_client_idx lt in
          simp (open_, lt)
            (record {
              entered = Memᴰ.head refl;
              smallest = (
                omega arith,
                All-weaken i s.default_client_idx s.clients (omega (arith, i_lt)) h.smallest,
              );
              below = omega (arith, b);
              unset = λ e. cc;
              told = refl;
            })
      | inr ge ↦
          let le = ltb_ℤ→≤ℤ i s.default_client_idx ge in
          let is = late_default n i s.default_client s.default_client_idx b le h.unset in
          simp (open_, ge)
            (record {
              entered =
                  IsEntered-tail s.default_client s.default_client_idx (i, c) s.clients is
                    h.entered;
              smallest = (le, h.smallest);
              below = h.below;
              unset = h.unset;
              told = sym is;
            })
    ]
  ]

  finish_all-HasSmallest :
      (n : ℕ) (rs : List (ℤ × Made C)) (s : Creation C)
      → All (λ r. r.0 <ℤ pos n) rs
      → HasSmallest n s
      → HasSmallest n (finish_all rs s)
  unfolding finish_all
  finish_all-HasSmallest n [] s b h = h
  finish_all-HasSmallest n ((i, o) ∷ rs) s b h =
      finish_all-HasSmallest n rs (finish i o s) b.1 (finish-HasSmallest n i o s b.0 h)

  -- The goroutines leave the multiclient open, keep the clients that are there, and one that made a client
  -- enters it.
  finish_open : (i : ℤ) (o : Made C) (s : Creation C) → (finish i o s).is_closed ≡ s.is_closed
  unfolding finish choose_default
  finish_open i (made c) s = ground arith
  finish_open i (not_made e) s = refl

  finish_keeps :
      (i : ℤ) (o : Made C) (s : Creation C) {e : ℤ × C}
      → s.is_closed ≡ false
      → Memᴰ e s.clients
      → Memᴰ e (finish i o s).clients
  unfolding finish choose_default
  finish_keeps i (made c) s open_ m = elim (Bool-cases (ltb_ℤ i s.default_client_idx)) [
    | inl lt ↦ simp (open_, lt) (Memᴰ.tail m)
    | inr ge ↦ simp (open_, ge) (Memᴰ.tail m)
  ]
  finish_keeps i (not_made x) s open_ m = m

  finish_enters :
      (i : ℤ) (c : C) (s : Creation C)
      → s.is_closed ≡ false
      → Memᴰ (i, c) (finish i (made c) s).clients
  unfolding finish choose_default
  finish_enters i c s open_ = elim (Bool-cases (ltb_ℤ i s.default_client_idx)) [
    | inl lt ↦ simp (open_, lt) (Memᴰ.head refl)
    | inr ge ↦ simp (open_, ge) (Memᴰ.head refl)
  ]

  finish_all_keeps :
      (rs : List (ℤ × Made C)) (s : Creation C) {e : ℤ × C}
      → s.is_closed ≡ false
      → Memᴰ e s.clients
      → Memᴰ e (finish_all rs s).clients
  unfolding finish_all
  finish_all_keeps [] s open_ m = m
  finish_all_keeps ((i, o) ∷ rs) s open_ m =
      finish_all_keeps rs (finish i o s) (finish_open i o s ∙ open_) (finish_keeps i o s open_ m)

  finish_all_enters :
      (rs : List (ℤ × Made C)) (s : Creation C) {i : ℤ} {c : C}
      → s.is_closed ≡ false
      → Memᴰ (i, made c) rs
      → Memᴰ (i, c) (finish_all rs s).clients
  unfolding finish_all
  finish_all_enters [] s open_ m = elim m [ ]
  finish_all_enters ((j, o) ∷ rs) s {i} {c} open_ (Memᴰ.head e) =
      finish_all_keeps rs (finish j o s) (finish_open j o s ∙ open_) (
        subst (λ (x : ℤ × Made C). Memᴰ (i, c) (finish x.0 x.1 s).clients) e
          (finish_enters i c s open_))
  finish_all_enters ((j, o) ∷ rs) s open_ (Memᴰ.tail m) =
      finish_all_enters rs (finish j o s) (finish_open j o s ∙ open_) m

  -- In whatever order the goroutines end, every client that could be made is in the multiclient, and its
  -- default client is the one of the smallest number.
  pub create_default :
      (n : ℕ) (rs : List (ℤ × Made C))
      → All (λ r. r.0 <ℤ pos n) rs
      → HasSmallest n (finish_all rs (new_creation n))
        × ((i : ℤ) (c : C)
            → Memᴰ (i, made c) rs
            → Memᴰ (i, c) (finish_all rs (new_creation n)).clients)
  unfolding new_creation
  create_default n rs b =
      let begin : HasSmallest n (new_creation n) = record {
        entered = refl;
        smallest = tt;
        below = omega arith;
        unset = λ e. refl;
        told = refl;
      } in
      (
        finish_all-HasSmallest n rs (new_creation n) b begin,
        λ i c m. finish_all_enters rs (new_creation n) refl m,
      )

  nonempty-is_some :
      (d : Option C) (idx : ℤ) (cs : List (ℤ × C)) {e : ℤ × C}
      → IsEntered d idx cs
      → Memᴰ e cs
      → is_some d ≡ true
  nonempty-is_some none idx cs h m = absurd (Memᴰ.not-nil (subst (Memᴰ _) h m))
  nonempty-is_some (some c) idx cs h m = refl

  -- When all goroutines have ended, and at least one client could be made, `NewMultiClient` can return the
  -- multiclient, but also, as both channels hold something, the error that no client could be made.
  pub create_may_fail :
      (n : ℕ) (rs : List (ℤ × Made C)) (i : ℤ) (c : C)
      → All (λ r. r.0 <ℤ pos n) rs
      → Memᴰ (i, made c) rs
      → Returns
          (all_done (finish_all rs (new_creation n)))
          (ok (all_done (finish_all rs (new_creation n))))
        × Returns (all_done (finish_all rs (new_creation n))) (err create_client_failed)
  unfolding all_done
  create_may_fail n rs i c b m =
      let s = finish_all rs (new_creation n) in
      let (h, enters) = create_default n rs b in
      (
        takes_success (
            h.told
            ∙ nonempty-is_some s.default_client s.default_client_idx s.clients h.entered
                (enters i c m)),
        takes_fail refl,
      )
