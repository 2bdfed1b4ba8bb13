-- ===== src/Client/Publish/Tests.antt =====
-- client.go: `publish` on a topic with two subscribers on every page.
use nkn_sdk_go.Base.{ℕ, suc, ◌≡◌, refl, Bool, true, [], ◌∷◌, none}
use nkn_sdk_go.Base.Int.{ℤ, pos}
use nkn_sdk_go.Base.Bytes.{text}
use nkn_sdk_go.Errors.{Outcome, ok}
use nkn_sdk_go.Client.Publish.{SubscriberPage, PublishConfig, publish_dests}
use nkn_sdk_go.Client.Publish.Pages.{NeverFails, publish_endless}

abbrev page : SubscriberPage
page = record { subscribers = text "a" ∷ text "b" ∷ []; in_tx_pool = text "c" ∷ [] }

-- The world counts the calls.
abbrev pages : ℤ → ℤ → Bool → ℕ → Outcome SubscriberPage × ℕ
pages offset limit pool w = (ok page, suc w)

pages-NeverFails : NeverFails pages
pages-NeverFails offset limit pool w = (page, suc w, refl)

abbrev config : ℤ → PublishConfig
config limit = record { offset = pos 0; limit = limit; tx_pool = true }

publish_endless_example : (publish_dests pages 50 (config (pos 2)) 0).0 ≡ ok none
publish_endless_example =
    publish_endless pages pages-NeverFails 50 (config (pos 2)) 0 1 page refl refl
