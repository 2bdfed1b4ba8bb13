-- ===== src/MultiClient/Create/Tests.antt =====
-- multiclient.go: three clients that are created in another order than that of their numbers, one of
-- which cannot be made.
use nkn_sdk_go.Base.{ℕ, List, [], ◌∷◌, arith}
use mathlib.Core.List.{Memᴰ}
use nkn_sdk_go.Base.Int.{ℤ, pos, negsuc}
use nkn_sdk_go.Errors.{external}
use nkn_sdk_go.MultiClient.Create.{Made, made, not_made, new_creation, finish_all}
use nkn_sdk_go.MultiClient.Create.Default.{HasSmallest, create_default}

abbrev ends : List (ℤ × Made ℕ)
ends = (pos 1, made 11) ∷ (negsuc 0, not_made (external (pos 1))) ∷ (pos 0, made 10) ∷ []

create_default_example :
    HasSmallest 2 (finish_all ends (new_creation 2))
    × ((i : ℤ) (c : ℕ)
        → Memᴰ (i, made c) ends
        → Memᴰ (i, c) (finish_all ends (new_creation 2)).clients)
create_default_example = create_default 2 ends (omega arith)
