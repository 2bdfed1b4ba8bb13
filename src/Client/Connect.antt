-- ===== src/Client/Connect.antt =====
-- client.go: `connect`, the loop that finds a node and connects to it; and the loop of `NewClient` and
-- `NewMultiClient` that collects the resolvers. Finding a node (the RPC calls, and the offer over WebRTC)
-- and dialing it are code outside the repository.
mod Retries
mod Tests
use nkn_sdk_go.Base.{
  ℕ, zero, suc, ◌+◌, ◌-◌, ◌*◌, ◌≡◌, ltb, Bool, true, false, List, [], ◌∷◌, ◌++◌, Option, some, none,
  length, if◌then◌else◌,
}
use nkn_sdk_go.Errors.{Error, Outcome, ok, err, panic, connect_failed, invalid_resolver}
use nkn_sdk_go.Action.{Action, pure}

-- The part of the configuration that `connect` reads; intervals are milliseconds.
pub record RetryConfig : Type 0 where
  pub min_reconnect_interval : ℕ
  pub max_reconnect_interval : ℕ

-- `retryInterval *= 2`, and no more than the maximum
abbrev pub next_interval : RetryConfig → ℕ → ℕ
next_interval cfg interval =
    if ltb cfg.max_reconnect_interval (interval * 2)
    then cfg.max_reconnect_interval
    else interval * 2

-- What `connect` calls; `sleep` waits for milliseconds.
pub record Dialing (W Node : Type 0) : Type 0 where
  pub find_node : Action W Node
  pub connect_to_node : Node → Action W (Unit {0})
  pub sleep : ℕ → W → W

-- How a round of the loop ends: with a connection, or with the node for the next round, if any.
pub data Round (Node : Type 0) : Type 0 where
  connected : Round Node
  again : Option Node → Round Node

module _ {W Node : Type 0} (dialing : Dialing W Node) (cfg : RetryConfig) where
  open dialing use {find_node, connect_to_node, sleep}

  -- `err = c.connectToNode(node)`; the node is kept for the next round.
  abbrev pub after_dial : Node → Outcome (Unit {0}) × W → Outcome (Round Node) × W
  after_dial node (ok u, w) = (ok connected, w)
  after_dial node (err e, w) = (ok (again (some node)), w)
  after_dial node (panic, w) = (panic, w)

  abbrev pub after_find : Outcome Node × W → Outcome (Round Node) × W
  after_find (ok node, w) = after_dial node (connect_to_node node w)
  after_find (err e, w) = (ok (again none), w)
  after_find (panic, w) = (panic, w)

  pub attempt : Option Node → W → Outcome (Round Node) × W
  attempt none w = after_find (find_node w)
  attempt (some node) w = after_dial node (connect_to_node node w)

  -- `continue`, or `return nil`
  abbrev pub next_round :
      Outcome (Round Node) × W → (Option Node → W → Outcome (Unit {0}) × W) → Outcome (Unit {0}) × W
  next_round (ok connected, w) f = (ok tt, w)
  next_round (ok (again node), w) f = f node w
  next_round (err e, w) f = (err e, w)
  next_round (panic, w) f = (panic, w)

  -- The loop for `n` more rounds, of which only the first of all does not wait.
  pub connect_rounds : ℕ → Bool → ℕ → Option Node → W → Outcome (Unit {0}) × W
  unfolding attempt
  connect_rounds zero first interval known w = (err connect_failed, w)
  connect_rounds (suc n) first interval known w =
      next_round (attempt known (if first then w else sleep interval w))
        (connect_rounds n false (if first then interval else next_interval cfg interval))

  -- `connect`, for a number of retries that is not negative
  pub connect : ℕ → Option Node → W → Outcome (Unit {0}) × W
  connect max_retries known w = connect_rounds max_retries true cfg.min_reconnect_interval known w
