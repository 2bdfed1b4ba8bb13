-- ===== src/Identifier.antt =====
-- util.go (`addIdentifierPrefix`) and multiclient.go (`addIdentifier`, `removeIdentifier` and the
-- two functions that prefix lists of destinations): the names of the sub clients of a multiclient.
-- A client with index `i` puts `__i__.` before the address.
pub mod Decimal
pub mod RoundTrip
mod Tests
use Decimal.{itoa, is_digit}
use nkn_sdk_go.Base.{
  ℕ, zero, suc, ◌+◌, ◌≡◌, Bool, true, false, ◌&&◌, List, [], ◌∷◌, ◌++◌, map, Option, none, some,
  ◌==◌, if◌then◌else◌, concat,
}
use nkn_sdk_go.Base.Int.{ℤ, pos, negsuc}
use nkn_sdk_go.Base.Bytes.{Bytes, text}

abbrev pub dot : ℕ
dot = b'.'

abbrev pub underscore : ℕ
underscore = b'_'

-- `addIdentifierPrefix`.
pub add_identifier_prefix : Bytes → Bytes → Bytes
add_identifier_prefix [] prefix = prefix
add_identifier_prefix (b ∷ base) [] = b ∷ base
add_identifier_prefix (b ∷ base) (p ∷ prefix) = (p ∷ prefix) ++ dot ∷ b ∷ base

-- `"__" + strconv.Itoa(id) + "__"` for an index that is not negative.
abbrev pub tag : ℕ → Bytes
tag n = underscore ∷ underscore ∷ itoa n ++ underscore ∷ underscore ∷ []

-- `addIdentifier`.
unfoldable pub add_identifier : Bytes → ℤ → Bytes
unfolding add_identifier_prefix
add_identifier addr (negsuc n) = addr
add_identifier addr (pos n) = add_identifier_prefix addr (tag n)

-- `strings.SplitN(src, ".", 2)`: what stands before the first dot and after it, if there is one.
unfoldable pub split_dot : Bytes → Option (Bytes × Bytes)
split_dot [] = none
split_dot (c ∷ cs) =
    let rest = split_dot cs in
    if c == dot then some ([], cs) else elim rest [ none ↦ none | some (h, t) ↦ some (c ∷ h, t) ]

-- The part `\d*__$` of the expression `^__\d+__$`; one digit was read before.
pub digits_end : Bytes → Bool
digits_end [] = false
digits_end (c ∷ []) = false
digits_end (c ∷ d ∷ []) = c == underscore && d == underscore
digits_end (c ∷ d ∷ e ∷ cs) = is_digit c && digits_end (d ∷ e ∷ cs)

-- `multiClientIdentifierRe.MatchString`, for `^__\d+__$`.
pub is_identifier : Bytes → Bool
is_identifier (a ∷ b ∷ c ∷ cs) = a == underscore && b == underscore && is_digit c && digits_end cs
is_identifier cs = false

-- `removeIdentifier`: the address without the identifier, and the identifier.
unfoldable pub remove_identifier : Bytes → Bytes × Bytes
remove_identifier src = elim (split_dot src) [
  | none ↦ (src, [])
  | some (h, t) ↦ if is_identifier h then (t, h) else (src, [])
]

-- `addMultiClientPrefix`.
unfoldable pub add_multi_client_prefix : List Bytes → ℤ → List Bytes
add_multi_client_prefix dest id = map (λ addr. add_identifier addr id) dest

-- `addMultiClientPrefixForAllSubClients`.
pub add_prefix_for_all : List Bytes → List ℤ → List Bytes
add_prefix_for_all dest [] = dest
add_prefix_for_all dest (id ∷ ids) =
    concat (map (λ addr. map (λ i. add_identifier addr i) (id ∷ ids)) dest)
