-- ===== src/MultiClient/Sessions/Numbers.antt =====
-- multiclient.go: the client ids by which a session is told who received a message.
use nkn_sdk_go.Base.{ℕ, zero, suc, ◌≡◌, ◌≢◌, sym, ap, ◌∙◌, true, false, [], arith}
use nkn_sdk_go.Base.Int.{pos, negsuc, ◌-ℤ◌, int_laws}
use nkn_sdk_go.Identifier.{add_identifier, tag}
use nkn_sdk_go.Identifier.RoundTrip.{add_identifier-nil, add_identifier-original, tag-injective}
use nkn_sdk_go.MultiClient.Sessions.{receiving_id}

minus_zero : (n : ℕ) → pos n -ℤ pos 0 ≡ pos n
minus_zero n = grind int_laws

minus_one : (n : ℕ) → pos (suc n) -ℤ pos 1 ≡ pos n
minus_one n = grind int_laws

below_zero : pos 0 -ℤ pos 1 ≡ negsuc 0
below_zero = grind int_laws

shifted : (n : ℕ) → receiving_id true (pos n) ≢ add_identifier [] (pos n)
unfolding receiving_id
shifted zero e =
    let first : add_identifier [] (negsuc 0) ≡ tag 0 =
      ap (add_identifier []) (sym below_zero) ∙ e ∙ add_identifier-nil 0 in
    let empty : [] ≡ tag 0 = sym (add_identifier-original []) ∙ first in cc
shifted (suc n) e =
    let same : tag n ≡ tag (suc n) =
      sym (add_identifier-nil n)
      ∙ ap (add_identifier []) (sym (minus_one n))
      ∙ e
      ∙ add_identifier-nil (suc n) in
    let equal : n ≡ suc n = tag-injective n (suc n) same in absurd (omega arith)

-- Without an original client, a session message is handed on under the id of the client that received
-- it, by which the session also sends. With one it never is: that of the first client goes under the id
-- of the original client, and that of each other client under the id of the client before it.
pub receiving_id_shifted :
    (n : ℕ)
    → (receiving_id false (pos n) ≡ add_identifier [] (pos n))
      × (receiving_id true (pos n) ≢ add_identifier [] (pos n))
      × (receiving_id true (pos 0) ≡ add_identifier [] (negsuc 0))
      × (receiving_id true (pos (suc n)) ≡ add_identifier [] (pos n))
unfolding receiving_id
receiving_id_shifted n = (
  ap (add_identifier []) (minus_zero n),
  shifted n,
  ap (add_identifier []) below_zero,
  ap (add_identifier []) (minus_one n),
)
