-- ===== src/Client/Publish/Pages.antt =====
-- client.go: when `publish` has all of its destinations.
use nkn_sdk_go.Base.{
  ℕ, zero, suc, ◌≡◌, refl, ap, Bool, true, false, List, ◌++◌, Option, some, none, length,
  if◌then◌else◌,
}
use nkn_sdk_go.Base.Int.{ℤ, pos, ◌+ℤ◌, leb_ℤ, wrap_i64}
use nkn_sdk_go.Base.Bytes.{Bytes}
use nkn_sdk_go.Errors.{Outcome, ok, err, panic}
use nkn_sdk_go.Action.{Action, continue}
use nkn_sdk_go.Client.Publish.{SubscriberPage, PublishConfig, more_pages, with_pool, publish_dests}

module _ {W : Type 0} (get_subscribers : ℤ → ℤ → Bool → Action W SubscriberPage) where
  -- Every page can be had.
  abbrev pub NeverFails : Type 0
  NeverFails =
      (offset limit : ℤ) (pool : Bool) (w : W)
      → (r : SubscriberPage) × (w' : W) × (get_subscribers offset limit pool w ≡ (ok r, w'))

  more_pages_endless :
      NeverFails
      → (fuel : ℕ) (first : List Bytes) (limit offset : ℤ) (dests : List Bytes) (w : W)
      → leb_ℤ limit (pos (length first)) ≡ true
      → (more_pages get_subscribers fuel first limit offset dests w).0 ≡ ok none
  unfolding more_pages
  more_pages_endless g zero first limit offset dests w full = refl
  more_pages_endless g (suc fuel) first limit offset dests w full =
      let (r, w', h) = g (wrap_i64 (offset +ℤ limit)) limit false w in
      rw (full, h) (more_pages_endless g fuel first limit _ _ w' full)

  none_continues :
      {A B : Type 0} (r : Outcome (Option A) × W) (f : Option A → Option B)
      → f none ≡ none
      → r.0 ≡ ok none
      → (continue r (λ d w. (ok (f d), w))).0 ≡ ok none
  none_continues (ok none, w) f e h = ap ok e
  none_continues (ok (some a), w) f e h = cc
  none_continues (err x, w) f e h = cc
  none_continues (panic, w) f e h = cc

  -- If the first page is full, and every page can be had, `publish` never has its destinations,
  -- however many pages it asks for: the test of the loop is about the first page only.
  pub publish_endless :
      NeverFails
      → (fuel : ℕ) (cfg : PublishConfig) (w w' : W) (r : SubscriberPage)
      → get_subscribers cfg.offset cfg.limit cfg.tx_pool w ≡ (ok r, w')
      → leb_ℤ cfg.limit (pos (length r.subscribers)) ≡ true
      → (publish_dests get_subscribers fuel cfg w).0 ≡ ok none
  unfolding publish_dests
  publish_endless g fuel cfg w w' r h full = rw h (
      none_continues
        (more_pages get_subscribers fuel r.subscribers cfg.limit cfg.offset r.subscribers w')
        (with_pool get_subscribers cfg.tx_pool r.in_tx_pool) refl
        (more_pages_endless g fuel r.subscribers cfg.limit cfg.offset r.subscribers w' full))

  -- If the first page is not full, its subscribers are the destinations, and those of the pool after
  -- them if these are asked for; no other page is.
  pub publish_short :
      (fuel : ℕ) (cfg : PublishConfig) (w w' : W) (r : SubscriberPage)
      → get_subscribers cfg.offset cfg.limit cfg.tx_pool w ≡ (ok r, w')
      → leb_ℤ cfg.limit (pos (length r.subscribers)) ≡ false
      → publish_dests get_subscribers (suc fuel) cfg w
        ≡ (ok (some (if cfg.tx_pool then r.subscribers ++ r.in_tx_pool else r.subscribers)), w')
  unfolding publish_dests more_pages
  publish_short fuel cfg w w' r h short = rw (h, short) refl
