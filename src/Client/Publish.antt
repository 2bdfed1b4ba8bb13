-- ===== src/Client/Publish.antt =====
-- client.go: `publish`, up to the call of `send`. The RPC call that gives a page of the subscribers of a
-- topic is code outside the repository; `fuel` bounds the pages that are asked for.
mod Pages
mod Tests
use nkn_sdk_go.Base.{
  ℕ, zero, suc, Bool, true, false, List, [], ◌++◌, Option, some, none, length, if◌then◌else◌,
}
use nkn_sdk_go.Base.Int.{ℤ, pos, ◌+ℤ◌, leb_ℤ, wrap_i64}
use nkn_sdk_go.Base.Bytes.{Bytes}
use nkn_sdk_go.Action.{Action, pure, ◌>>=◌}

-- The names in a `Subscribers`, on chain and in the transaction pool, in the order in which the loops over
-- the two maps meet them.
pub record SubscriberPage : Type 0 where
  pub subscribers : List Bytes
  pub in_tx_pool : List Bytes

-- The part of `MessageConfig` that `publish` reads.
pub record PublishConfig : Type 0 where
  pub offset : ℤ
  pub limit : ℤ
  pub tx_pool : Bool

module _ {W : Type 0} (get_subscribers : ℤ → ℤ → Bool → Action W SubscriberPage) where
  -- `for len(subscribers) >= limit { ... }`, where `first` is `subscribers`; none when the fuel is
  -- used up.
  pub more_pages : ℕ → List Bytes → ℤ → ℤ → List Bytes → Action W (Option (List Bytes))
  more_pages zero first limit offset dests = pure none
  more_pages (suc fuel) first limit offset dests =
      if leb_ℤ limit (pos (length first))
      then (do
        res ← get_subscribers (wrap_i64 (offset +ℤ limit)) limit false
        more_pages fuel first limit (wrap_i64 (offset +ℤ limit)) (dests ++ res.subscribers))
      else pure (some dests)

  abbrev pub with_pool : Bool → List Bytes → Option (List Bytes) → Option (List Bytes)
  with_pool pool extra none = none
  with_pool pool extra (some dests) = some (if pool then dests ++ extra else dests)

  -- The destinations of `publish`.
  pub publish_dests : ℕ → PublishConfig → Action W (Option (List Bytes))
  unfolding more_pages
  publish_dests fuel cfg = do
    res ← get_subscribers cfg.offset cfg.limit cfg.tx_pool
    dests ← more_pages fuel res.subscribers cfg.limit cfg.offset res.subscribers
    pure (with_pool cfg.tx_pool res.in_tx_pool dests)
