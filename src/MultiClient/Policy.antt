-- ===== src/MultiClient/Policy.antt =====
-- multiclient.go: `getClientsByPolicy` and `getAllClientIDs`. The map of the clients is a list without
-- two entries of one number, in the order in which an iteration meets them; any order is allowed.
mod Choice
mod Best
mod Tests
use nkn_sdk_go.Base.{
  ℕ, ltb, Bool, true, false, not, ◌&&◌, List, [], ◌∷◌, map, Option, some, none, if◌then◌else◌,
}
use nkn_sdk_go.Base.Int.{ℤ, pos, negsuc, ltb_ℤ, leb_ℤ}
use nkn_sdk_go.Client.State.{Client, ConnState, connecting, connected, disconnected}
use nkn_sdk_go.MultiClient.Score.{score}

-- `CrossSendPolicyNone` and the others, `unknown` for any other number.
pub data CrossSendPolicy : Type 0 where
  no_cross_send any_connected all_connected prefer_stable unknown : CrossSendPolicy

abbrev pub is_connected : ConnState → Bool
is_connected connecting = false
is_connected connected = true
is_connected disconnected = false

abbrev pub Clients : Type 0 → Type 0
Clients W = List (ℤ × Option (Client W))

-- `if bestClientID >= 0 { return []int{bestClientID} }`
abbrev pub if_found : ℤ → List ℤ
if_found i = if leb_ℤ (pos 0) i then i ∷ [] else []

module _ {W : Type 0} where
  -- `client != nil && !client.IsClosed()`, and then `state == ConnConnected`
  abbrev pub is_sending : Option (Client W) → Bool
  is_sending none = false
  is_sending (some c) = not c.is_closed && is_connected c.state

  -- `getAllClientIDs`
  abbrev pub all_client_ids : Clients W → List ℤ
  all_client_ids = map (λ e. e.0)

  abbrev pub or_all : Clients W → List ℤ → List ℤ
  or_all cs [] = all_client_ids cs
  or_all cs (i ∷ is) = i ∷ is

  pub first_connected : Clients W → List ℤ
  first_connected [] = []
  first_connected ((i, c) ∷ cs) = if is_sending c then i ∷ [] else first_connected cs

  pub connected_ids : Clients W → List ℤ
  connected_ids [] = []
  connected_ids ((i, c) ∷ cs) =
      let rest = connected_ids cs in if is_sending c then i ∷ rest else rest

  abbrev pub score_of : ℤ → Option (Client W) → ℤ
  score_of now none = pos 0
  score_of now (some c) = pos (score now c.stats)

  -- The loop for the best score; -1 is no client, and a score below all others.
  pub best_client : ℤ → ℤ × ℤ → Clients W → ℤ × ℤ
  best_client now best [] = best
  best_client now best ((i, c) ∷ cs) =
      best_client now
        (if is_sending c && ltb_ℤ (best.1) (score_of now c) then (i, score_of now c) else best) cs

  -- `getClientsByPolicy`
  unfoldable pub clients_by_policy : CrossSendPolicy → ℤ → Clients W → List ℤ
  unfolding first_connected connected_ids best_client
  clients_by_policy no_cross_send now cs = all_client_ids cs
  clients_by_policy any_connected now cs = or_all cs (first_connected cs)
  clients_by_policy all_connected now cs = or_all cs (connected_ids cs)
  clients_by_policy prefer_stable now cs =
      or_all cs (if_found (best_client now (negsuc 0, negsuc 0) cs).0)
  clients_by_policy unknown now cs = all_client_ids cs
