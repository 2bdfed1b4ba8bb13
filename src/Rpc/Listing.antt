-- ===== src/Rpc/Listing.antt =====
-- rpc.go: how `GetSubscribersContext` reads the answer of a node.
use nkn_sdk_go.Base.{Bool, true, false, List, [], ◌∷◌, if◌then◌else◌}
use nkn_sdk_go.Base.Bytes.{Bytes, Dict, insert}
use nkn_sdk_go.Errors.{Outcome, ok, panic, ◌>>=◌}
use nkn_sdk_go.Rpc.Requests.{
  Leaf, string, not_string, Field, object, array, neither, SubscribersAnswer,
}

-- `Subscribers`
pub record Subscribers : Type 0 where
  pub subscribers : Dict Bytes
  pub subscribers_in_tx_pool : Dict Bytes

-- `for subscriber, meta := range ... { subscribers[subscriber] = meta.(string) }`
pub add_metas : Dict Leaf → Dict Bytes → Outcome (Dict Bytes)
add_metas [] d = ok d
add_metas ((k, string m) ∷ rest) d = add_metas rest (insert k m d)
add_metas ((k, not_string) ∷ rest) d = panic

-- `for _, subscriber := range ... { subscribers[subscriber.(string)] = "" }`
pub add_names : List Leaf → Dict Bytes → Outcome (Dict Bytes)
add_names [] d = ok d
add_names (string s ∷ rest) d = add_names rest (insert s [] d)
add_names (not_string ∷ rest) d = panic

-- One member of the answer, with the metadata or without; a failed type assertion panics.
pub read_field : Bool → Field → Outcome (Dict Bytes)
unfolding add_metas add_names
read_field true (object d) = add_metas d []
read_field true (array l) = panic
read_field true neither = panic
read_field false (object d) = panic
read_field false (array l) = add_names l []
read_field false neither = panic

-- What `GetSubscribersContext` makes of the answer.
pub read_subscribers : Bool → Bool → SubscribersAnswer → Outcome Subscribers
unfolding read_field
read_subscribers meta tx_pool a = do
  s ← read_field meta a.subscribers
  p ← if tx_pool then read_field meta a.subscribers_in_tx_pool else ok []
  ok (record { subscribers = s; subscribers_in_tx_pool = p })
