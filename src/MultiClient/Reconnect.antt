-- ===== src/MultiClient/Reconnect.antt =====
-- multiclient.go: `Reconnect`. The clients are met in the order of the list, any order being allowed.
pub mod Asked
mod Tests
use nkn_sdk_go.Base.{Bool, true, false, List, [], ◌∷◌, Option, none, some, if◌then◌else◌}
use nkn_sdk_go.Base.Int.{ℤ}
use nkn_sdk_go.Errors.{Outcome, ok, err, panic}
use nkn_sdk_go.Client.State.{Client, reconnect}
use nkn_sdk_go.MultiClient.Policy.{Clients}
use nkn_sdk_go.MultiClient.Sending.{MultiClient}

module _ {W : Type 0} where
  -- The rest of the loop is run after a call that returned.
  abbrev pub then_others :
      Outcome (Unit {0})
      → ℤ × Option (Client W)
      → Clients W
      → Outcome (Unit {0}) × Clients W
      → Outcome (Unit {0}) × Clients W
  then_others (ok u) e cs (o, cs') = (o, e ∷ cs')
  then_others (err x) e cs (o, cs') = (err x, e ∷ cs)
  then_others panic e cs (o, cs') = (panic, e ∷ cs)

  -- `for _, client := range m.clients { client.Reconnect(nil) }`; a nil client has no lock to take.
  pub reconnect_each : Clients W → Outcome (Unit {0}) × Clients W
  reconnect_each [] = (ok tt, [])
  reconnect_each ((i, none) ∷ cs) = (panic, (i, none) ∷ cs)
  reconnect_each ((i, some c) ∷ cs) =
      let (o, c') = reconnect none c in then_others o (i, some c') cs (reconnect_each cs)

  -- `Reconnect`
  pub reconnect_all : Bool → MultiClient W → Outcome (Unit {0}) × MultiClient W
  unfolding reconnect_each
  reconnect_all is_closed m =
      if is_closed
      then (ok tt, m)
      else (let (o, cs) = reconnect_each m.clients in (o, record m { clients = cs }))
