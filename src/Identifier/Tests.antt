-- ===== src/Identifier/Tests.antt =====
-- util.go and multiclient.go: identifiers on concrete addresses.
use nkn_sdk_go.Base.{ℕ, ◌≡◌, [], some, false}
use nkn_sdk_go.Base.Int.{pos}
use nkn_sdk_go.Base.Bytes.{Bytes, text}
use nkn_sdk_go.Identifier.{add_identifier, remove_identifier, tag, split_dot, is_identifier}
use nkn_sdk_go.Identifier.RoundTrip.{remove_identifier-add_identifier, remove_identifier-none}

remove_identifier-add_identifier_example :
    remove_identifier (add_identifier (text "alice.0a1b") (pos 12)) ≡ (text "alice.0a1b", tag 12)
remove_identifier-add_identifier_example =
    remove_identifier-add_identifier (text "alice.0a1b") 12 (λ e. cc)

abbrev three : ℕ
three = 3

-- An address without a dot.
no_dot : (h t : Bytes) → split_dot (text "ab") ≡ some (h, t) → is_identifier h ≡ false
unfolding split_dot
no_dot h t e = cc

remove_identifier-none_example : remove_identifier (text "ab") ≡ (text "ab", [])
remove_identifier-none_example = remove_identifier-none (text "ab") no_dot
