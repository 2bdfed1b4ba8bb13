-- ===== src/Identifier/RoundTrip.antt =====
-- multiclient.go: the identifier of a sub client can be taken off again, and tells its index.
use nkn_sdk_go.Base.{
  ℕ, ◌<◌, ◌≡◌, refl, ap, ◌∙◌, sym, true, false, ◌≢◌, some, Option-cases, inl, inr, [], ◌∷◌, ◌++◌,
  arith, ◌==◌, length, All,
}
use nkn_sdk_go.Base.Int.{pos, negsuc}
use nkn_sdk_go.Base.Bytes.{Bytes}
use nkn_sdk_go.Identifier.{
  dot, underscore, tag, add_identifier, split_dot, digits_end, is_identifier, remove_identifier,
}
use nkn_sdk_go.Identifier.Decimal.{itoa, itoa-injective, itoa-AllDigits, length-itoa, AllDigits}

-- The first dot is found behind what holds none.
split_dot-append :
    (xs ys : Bytes) → All (λ c. (c == dot) ≡ false) xs → split_dot (xs ++ dot ∷ ys) ≡ some (xs, ys)
unfolding split_dot
split_dot-append [] ys h = refl
split_dot-append (x ∷ xs) ys h = rw (h.0, split_dot-append xs ys h.1)

digits_no_dot :
    (xs : Bytes) → AllDigits xs → All (λ c. (c == dot) ≡ false) (xs ++ underscore ∷ underscore ∷ [])
digits_no_dot [] h = (refl, (refl, tt))
digits_no_dot (x ∷ xs) h = (ground arith, digits_no_dot xs h.1)

digits_end-append :
    (xs : Bytes) → AllDigits xs → digits_end (xs ++ underscore ∷ underscore ∷ []) ≡ true
unfolding digits_end
digits_end-append [] h = refl
digits_end-append (x ∷ []) h = rw h.0
digits_end-append (x ∷ y ∷ []) h = rw h.0 (digits_end-append (y ∷ []) h.1)
digits_end-append (x ∷ y ∷ z ∷ xs) h = rw h.0 (digits_end-append (y ∷ z ∷ xs) h.1)

is_identifier-digits :
    (xs : Bytes)
    → AllDigits xs
    → 0 < length xs
    → is_identifier (underscore ∷ underscore ∷ xs ++ underscore ∷ underscore ∷ []) ≡ true
unfolding is_identifier
is_identifier-digits [] h pos_len = absurd (omega arith)
is_identifier-digits (x ∷ xs) h pos_len = rw h.0 (digits_end-append xs h.1)

tag-no_dot : (n : ℕ) → All (λ c. (c == dot) ≡ false) (tag n)
tag-no_dot n = (refl, (refl, digits_no_dot (itoa n) (itoa-AllDigits n)))

-- Taking the identifier off an address that got one gives the address back, and the identifier,
-- whatever the address holds, provided that it is not empty.
pub remove_identifier-add_identifier :
    (addr : Bytes) (n : ℕ)
    → addr ≢ []
    → remove_identifier (add_identifier addr (pos n)) ≡ (addr, tag n)
unfolding remove_identifier add_identifier
remove_identifier-add_identifier [] n h = absurd (h refl)
remove_identifier-add_identifier (b ∷ addr) n h = rw (
  split_dot-append (tag n) (b ∷ addr) (tag-no_dot n),
  remove_identifier,
  is_identifier-digits (itoa n) (itoa-AllDigits n) (length-itoa n),
)

prefix-cancel :
    (xs ys zs : Bytes)
    → AllDigits xs
    → AllDigits ys
    → xs ++ underscore ∷ zs ≡ ys ++ underscore ∷ zs
    → xs ≡ ys
prefix-cancel [] [] zs hx hy e = refl
prefix-cancel [] (y ∷ ys) zs hx hy e = ground arith
prefix-cancel (x ∷ xs) [] zs hx hy e = ground arith
prefix-cancel (x ∷ xs) (y ∷ ys) zs hx hy e = ground (arith, prefix-cancel xs ys zs hx.1 hy.1)

pub tag-injective : (m n : ℕ) → tag m ≡ tag n → m ≡ n
tag-injective m n e =
    itoa-injective m n
      (prefix-cancel (itoa m) (itoa n) (underscore ∷ []) (itoa-AllDigits m) (itoa-AllDigits n) (cc))

-- Two sub clients never share an address: the index and the base address can be read off it.
pub add_identifier-injective :
    (a b : Bytes) (m n : ℕ)
    → a ≢ []
    → b ≢ []
    → add_identifier a (pos m) ≡ add_identifier b (pos n)
    → (a ≡ b) × (m ≡ n)
add_identifier-injective a b m n ha hb e =
    let p : ◌≡◌ {A = Bytes × Bytes} (a, tag m) (b, tag n) =
      sym (remove_identifier-add_identifier a m ha)
      ∙ ap remove_identifier e
      ∙ remove_identifier-add_identifier b n hb in
    (ap (λ (r : Bytes × Bytes). r.0) p, tag-injective m n (ap (λ (r : Bytes × Bytes). r.1) p))

-- An address that no multiclient identifier stands before is left alone.
pub remove_identifier-none :
    (src : Bytes)
    → ((h t : Bytes) → split_dot src ≡ some (h, t) → is_identifier h ≡ false)
    → remove_identifier src ≡ (src, [])
unfolding remove_identifier
remove_identifier-none src plain = elim (Option-cases (split_dot src)) [
  | inl e ↦ rw (e, remove_identifier)
  | inr ((h, t), e) ↦ rw (e, remove_identifier) (rw (plain h t e))
]

-- The identifier of a client with no base address, as sessions use it.
pub add_identifier-nil : (n : ℕ) → add_identifier [] (pos n) ≡ tag n
unfolding add_identifier
add_identifier-nil n = refl

pub add_identifier-original : (addr : Bytes) → add_identifier addr (negsuc 0) ≡ addr
unfolding add_identifier
add_identifier-original addr = refl
