-- ===== src/MultiClient/Spread/Trials.antt =====
-- multiclient.go: which clients are there while `Send` uses them, and the outcomes of its trials.
use nkn_sdk_go.Base.{
  ℕ, suc, ◌+◌, ◌≡◌, refl, sym, ap, ◌∙◌, Bool, true, false, List, [], ◌∷◌, ◌++◌, append_assoc,
  Option, none, some, Bool-cases, inl, inr, if◌then◌else◌, arith,
}
use nkn_sdk_go.Base.Int.{ℤ}
use nkn_sdk_go.Errors.{Error}
use nkn_sdk_go.Client.State.{Client}
use nkn_sdk_go.Client.Inbound.{contains}
use nkn_sdk_go.MultiClient.Policy.{Clients}
use nkn_sdk_go.MultiClient.Sending.{SendResult, delivered, failed, same_id, get_client, set_client}
use nkn_sdk_go.MultiClient.Spread.{result_from}

-- The client of a number is there.
abbrev pub is_present : {W : Type 0} → ℤ → Clients W → Bool
is_present i cs = contains (get_client i cs)

-- The numbers of the clients that are there.
abbrev pub present_ids : {W : Type 0} → Clients W → List ℤ → List ℤ
present_ids cs [] = []
present_ids cs (i ∷ is) = let rest = present_ids cs is in if is_present i cs then i ∷ rest else rest

-- A client's number, and its error if its send failed.
abbrev pub Trial : Type 0
Trial = ℤ × Option Error

abbrev pub errors_of : List Trial → List Error
errors_of [] = []
errors_of ((i, none) ∷ ts) = errors_of ts
errors_of ((i, some e) ∷ ts) = e ∷ errors_of ts

abbrev pub sent_count : List Trial → ℕ
sent_count [] = 0
sent_count ((i, none) ∷ ts) = suc (sent_count ts)
sent_count ((i, some e) ∷ ts) = sent_count ts

contains-choice :
    {A : Type 0} (q : Bool) (x y z u : Option A)
    → contains x ≡ contains y
    → contains z ≡ contains u
    → contains (if q then x else z) ≡ contains (if q then y else u)
contains-choice true x y z u h k = h
contains-choice false x y z u h k = k

pub is_present-set_client :
    {W : Type 0} (i j : ℤ) (c : Client W) (cs : Clients W)
    → is_present i cs ≡ true
    → is_present j (set_client i c cs) ≡ is_present j cs
is_present-set_client i j c [] h = refl
is_present-set_client i j c ((k, d) ∷ cs) h =
    let changed : Bool → Bool =
      λ t. is_present j (if t then (k, some c) ∷ cs else (k, d) ∷ set_client i c cs) in
    let found : Bool → Bool = λ t. contains (if t then d else get_client i cs) in
    elim (Bool-cases (same_id k i)) [
      | inl e ↦
          ap changed e
          ∙ contains-choice (same_id k j) (some c) d (get_client j cs) (get_client j cs)
              (sym (sym (ap found e) ∙ h)) refl
      | inr e ↦
          ap changed e
          ∙ contains-choice (same_id k j) d d (get_client j (set_client i c cs)) (get_client j cs)
              refl (is_present-set_client i j c cs (sym (ap found e) ∙ h))
    ]

pub present_ids-cong :
    {W : Type 0} (cs ds : Clients W) (is : List ℤ)
    → ((j : ℤ) → is_present j ds ≡ is_present j cs)
    → present_ids ds is ≡ present_ids cs is
present_ids-cong cs ds [] h = refl
present_ids-cong cs ds (i ∷ is) h = ground (arith, h i, present_ids-cong cs ds is h)

-- A list that was extended twice.
pub extended {ℓ} :
    {A : Type ℓ} (xs us vs all : List A) {ys zs : List A}
    → ys ≡ xs ++ us
    → zs ≡ ys ++ vs
    → us ++ vs ≡ all
    → zs ≡ xs ++ all
extended xs us vs all p q r = q ∙ ap (λ t. t ++ vs) p ∙ append_assoc xs us vs ∙ ap (λ t. xs ++ t) r

pub errors_of-append :
    (x : Trial) (ts : List Trial) → errors_of (x ∷ []) ++ errors_of ts ≡ errors_of (x ∷ ts)
errors_of-append (i, none) ts = refl
errors_of-append (i, some e) ts = refl

pub sent_count-append :
    (x : Trial) (ts : List Trial) → sent_count (x ∷ []) + sent_count ts ≡ sent_count (x ∷ ts)
sent_count-append (i, none) ts = omega arith
sent_count-append (i, some e) ts = omega arith

-- What `Send` returns, by the trials: the errors if all have failed.
abbrev pub all_failed : List Trial → Bool
all_failed [] = true
all_failed ((i, none) ∷ ts) = false
all_failed ((i, some e) ∷ ts) = all_failed ts

abbrev pub verdict : List Trial → SendResult
verdict ts = if all_failed ts then failed (errors_of ts) else delivered

pub result_from-all_failed :
    (ts : List Trial) (es : List Error)
    → result_from (sent_count ts) es ≡ (if all_failed ts then failed es else delivered)
result_from-all_failed [] es = refl
result_from-all_failed ((i, none) ∷ ts) es = refl
result_from-all_failed ((i, some e) ∷ ts) es = result_from-all_failed ts es
