-- ===== src/Identifier/Decimal.antt =====
-- `strconv.Itoa` on numbers that are not negative, and that it can be read back.
use nkn_sdk_go.Base.{
  ℕ, zero, suc, ◌+◌, ◌*◌, ◌/◌, ◌%◌, ◌-◌, ◌<◌, ◌≡◌, refl, ap, ◌∙◌, sym, Bool, true, ◌&&◌, [], ◌∷◌,
  ◌++◌, arith, ltb, leb, if◌then◌else◌, length, length-append, All, All-append, Bool-cases, inl,
  inr,
}
use nkn_sdk_go.Base.Bytes.{Bytes}

-- An ASCII digit, `\d` of a regular expression.
abbrev pub is_digit : ℕ → Bool
is_digit c = leb 48 c && leb c 57

abbrev pub itoa_fuel : ℕ → ℕ → Bytes
itoa_fuel zero n = []
itoa_fuel (suc f) n =
    let rest = itoa_fuel f (n / 10) in
    if ltb n 10 then (48 + n) ∷ [] else rest ++ (48 + n % 10) ∷ []

-- Decimal digits, the first one the most significant.
unfoldable pub itoa : ℕ → Bytes
itoa n = itoa_fuel (suc n) n

-- The number that digits stand for, after the digits that `acc` stands for.
value_from : ℕ → Bytes → ℕ
value_from acc [] = acc
value_from acc (c ∷ cs) = value_from (10 * acc + (c - 48)) cs

value_from-append :
    (acc : ℕ) (xs : Bytes) (c : ℕ)
    → value_from acc (xs ++ c ∷ []) ≡ 10 * value_from acc xs + (c - 48)
unfolding value_from
value_from-append acc [] c = refl
value_from-append acc (x ∷ xs) c = value_from-append (10 * acc + (x - 48)) xs c

value_from-itoa_fuel : (f n : ℕ) → n < f → value_from 0 (itoa_fuel f n) ≡ n
unfolding value_from
value_from-itoa_fuel zero n h = absurd (omega arith)
value_from-itoa_fuel (suc f) n h = ground (
  arith,
  value_from-append 0 (itoa_fuel f (n / 10)) (48 + n % 10),
  value_from-itoa_fuel f (n / 10),
)

-- Different numbers have different digits.
pub itoa-injective : (m n : ℕ) → itoa m ≡ itoa n → m ≡ n
unfolding itoa
itoa-injective m n h =
    sym (value_from-itoa_fuel (suc m) m (omega arith))
    ∙ ap (value_from 0) h
    ∙ value_from-itoa_fuel (suc n) n (omega arith)

abbrev pub AllDigits : Bytes → Type 0
AllDigits xs = All (λ c. is_digit c ≡ true) xs

digits-itoa_fuel : (f n : ℕ) → AllDigits (itoa_fuel f n)
digits-itoa_fuel zero n = tt
digits-itoa_fuel (suc f) n = elim (Bool-cases (ltb n 10)) [
  | inl small ↦ rw small (ground arith, tt)
  | inr large ↦ rw large (
      All-append (λ c. is_digit c ≡ true) (itoa_fuel f (n / 10)) _ (digits-itoa_fuel f (n / 10))
        (ground arith, tt))
]

pub itoa-AllDigits : (n : ℕ) → AllDigits (itoa n)
unfolding itoa
itoa-AllDigits n = digits-itoa_fuel (suc n) n

-- There is at least one digit.
pub length-itoa : (n : ℕ) → 0 < length (itoa n)
unfolding itoa
length-itoa n = ground (arith, length-append (itoa_fuel n (n / 10)) ((48 + n % 10) ∷ []))
