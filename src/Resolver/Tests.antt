-- ===== src/Resolver/Tests.antt =====
-- resolver.go on concrete resolvers: one that answers `b` to `a`, and one that answers `a` to all.
use nkn_sdk_go.Base.{◌≤◌, ℕ, suc, ◌≡◌, refl, [], ◌∷◌, if◌then◌else◌}
use nkn_sdk_go.Base.Int.{pos}
use nkn_sdk_go.Base.Bytes.{text, bytes_eq}
use nkn_sdk_go.Errors.{ok}
use nkn_sdk_go.Resolver.{Resolver, resolve_dest, resolve_dest_n}
use nkn_sdk_go.Resolver.Chain.{Chain, Hops, done, more, resolve_dest_n-Chain}

-- The world counts the calls.
abbrev alias : Resolver ℕ
alias d calls = (ok (if bytes_eq d (text "a") then text "b" else []), suc calls)

abbrev loop : Resolver ℕ
loop d calls = (ok (text "a"), suc calls)

resolves : resolve_dest_n (alias ∷ []) (pos 16) (text "a") 0 ≡ (ok (text "b"), 2)
unfolding resolve_dest_n resolve_dest
resolves = refl

resolve_dest_n-Chain_example :
    (k : ℕ) × (suc k ≤ 16) × Chain (alias ∷ []) k (text "a") 0 (text "b") 2
unfolding resolve_dest_n resolve_dest
resolve_dest_n-Chain_example =
    (resolve_dest_n-Chain (alias ∷ []) (pos 16) (text "a") (text "b") 0 2).0 resolves

loops : Hops (loop ∷ []) 2 (text "a") 0 2
unfolding resolve_dest
loops = more refl (more refl done)
