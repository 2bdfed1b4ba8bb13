-- ===== src/MultiClient/Sending/Unique.antt =====
-- multiclient.go: `Send` uses no client twice, and leaves none out.
use nkn_sdk_go.Base.{
  ◌≡◌, refl, sym, ap, subst, ◌∙◌, Bool, true, false, List, [], ◌∷◌, if◌then◌else◌, Bool-cases, inl,
  inr, arith,
}
use nkn_sdk_go.Base.Int.{ℤ, eq_of_parts}
use nkn_sdk_go.MultiClient.Sending.{same_id, is_seen, unique_from, unique_client_ids}

-- No number stands in the list twice.
abbrev pub HasNoRepeats : List ℤ → Type 0
HasNoRepeats [] = Unit {0}
HasNoRepeats (i ∷ is) = (is_seen i is ≡ false) × HasNoRepeats is

pub same_id_refl : (i : ℤ) → same_id i i ≡ true
same_id_refl i = ground arith

pub same_id_eq : (i j : ℤ) → same_id i j ≡ true → i ≡ j
same_id_eq i j h = eq_of_parts i j (ground (arith, h))

-- A test that answers `true` in front of a list.
in_front : (i j : ℤ) (is : List ℤ) → same_id i j ≡ true → is_seen j (i ∷ is) ≡ true
in_front i j is h = ap (λ b. if b then true else is_seen j is) h

behind : (i j : ℤ) (is : List ℤ) → is_seen j is ≡ true → is_seen j (i ∷ is) ≡ true
behind i j is h = elim (Bool-cases (same_id i j)) [
  | inl e ↦ in_front i j is e
  | inr e ↦ ap (λ b. if b then true else is_seen j is) e ∙ h
]

other_in_front :
    (i j : ℤ) (seen is : List ℤ)
    → is_seen i seen ≡ false
    → is_seen j seen ≡ true
    → is_seen j is ≡ false
    → is_seen j (i ∷ is) ≡ false
other_in_front i j seen is new old rest = elim (Bool-cases (same_id i j)) [
  | inl e ↦
      let same : i ≡ j = same_id_eq i j e in absurd (cc (ap (λ k. is_seen k seen) same, new, old))
  | inr e ↦ ap (λ b. if b then true else is_seen j is) e ∙ rest
]

-- What is seen is not in the rest.
seen_not_unique :
    (j : ℤ) (seen is : List ℤ) → is_seen j seen ≡ true → is_seen j (unique_from seen is) ≡ false
unfolding unique_from
seen_not_unique j seen [] h = refl
seen_not_unique j seen (i ∷ is) h = elim (Bool-cases (is_seen i seen)) [
  | inl e ↦
      ap (λ b. is_seen j (if b then unique_from seen is else i ∷ unique_from (i ∷ seen) is)) e
      ∙ seen_not_unique j seen is h
  | inr e ↦
      ap (λ b. is_seen j (if b then unique_from seen is else i ∷ unique_from (i ∷ seen) is)) e
      ∙ other_in_front i j seen (unique_from (i ∷ seen) is) e h
          (seen_not_unique j (i ∷ seen) is (behind i j seen h))
]

unique_from-HasNoRepeats : (seen is : List ℤ) → HasNoRepeats (unique_from seen is)
unfolding unique_from
unique_from-HasNoRepeats seen [] = tt
unique_from-HasNoRepeats seen (i ∷ is) = elim (Bool-cases (is_seen i seen)) [
  | inl e ↦
      subst (λ b. HasNoRepeats (if b then unique_from seen is else i ∷ unique_from (i ∷ seen) is))
        (sym e) (unique_from-HasNoRepeats seen is)
  | inr e ↦
      subst (λ b. HasNoRepeats (if b then unique_from seen is else i ∷ unique_from (i ∷ seen) is))
        (sym e)
        (
          seen_not_unique i (i ∷ seen) is (in_front i i seen (same_id_refl i)),
          unique_from-HasNoRepeats (i ∷ seen) is,
        )
]

not_in_front :
    (i j : ℤ) (seen : List ℤ)
    → is_seen j seen ≡ false
    → same_id i j ≡ false
    → is_seen j (i ∷ seen) ≡ false
not_in_front i j seen h e = ap (λ b. if b then true else is_seen j seen) e ∙ h

-- A number that was not seen is kept.
kept :
    (j : ℤ) (seen is : List ℤ)
    → is_seen j seen ≡ false
    → is_seen j is ≡ true
    → is_seen j (unique_from seen is) ≡ true
unfolding unique_from
kept j seen [] new h = cc
kept j seen (i ∷ is) new h =
    let goal : Bool → Type 0 =
      λ b. is_seen j (if b then unique_from seen is else i ∷ unique_from (i ∷ seen) is) ≡ true in
    elim (Bool-cases (same_id i j)) [
      | inl e ↦
          let new' : is_seen i seen ≡ false = ap (λ k. is_seen k seen) (same_id_eq i j e) ∙ new in
          subst goal (sym new') (in_front i j (unique_from (i ∷ seen) is) e)
      | inr e ↦
          let h' : is_seen j is ≡ true = ap (λ b. if b then true else is_seen j is) (sym e) ∙ h in
          elim (Bool-cases (is_seen i seen)) [
            | inl old ↦ subst goal (sym old) (kept j seen is new h')
            | inr fresh ↦ subst goal (sym fresh) (
                behind i j (unique_from (i ∷ seen) is)
                  (kept j (i ∷ seen) is (not_in_front i j seen new e) h'))
          ]
    ]

-- The numbers of the clients that `Send` uses: none twice, and each that the policy has chosen.
unique_client_ids-HasNoRepeats :
    (is : List ℤ)
    → HasNoRepeats (unique_client_ids is)
      × ((j : ℤ) → is_seen j is ≡ true → is_seen j (unique_client_ids is) ≡ true)
unfolding unique_client_ids
unique_client_ids-HasNoRepeats is = (unique_from-HasNoRepeats [] is, λ j h. kept j [] is refl h)
