-- ===== src/MultiClient/Policy/Tests.antt =====
-- multiclient.go: the policies on concrete clients.
use nkn_sdk_go.Base.{ℕ, ◌≡◌, refl, true, [], ◌∷◌, some, none, inl, inr, arith}
use nkn_sdk_go.Base.Int.{ℤ, pos, negsuc}
use nkn_sdk_go.Client.State.{Client, Stats}
use nkn_sdk_go.MultiClient.Policy.{prefer_stable, Clients, clients_by_policy}
use nkn_sdk_go.MultiClient.Policy.Choice.{Has}
use nkn_sdk_go.MultiClient.Policy.Best.{Scores, IsTop, prefer_stable_chosen}
use nkn_sdk_go.Fixtures.Clients.{toy_client}

abbrev closed_client : Client ℕ
closed_client = record toy_client { is_closed = true }

abbrev fresh_client : Client ℕ
fresh_client = record toy_client { stats = none }

abbrev three : Clients ℕ
three = (pos 0, some closed_client) ∷ (pos 1, some toy_client) ∷ (pos 2, some fresh_client) ∷ []

prefer_stable_chosen_example :
    (i : ℤ) × (n : ℤ) × (clients_by_policy prefer_stable (pos 1000) three ≡ i ∷ [])
    × Has (Scores (pos 1000) n) i three
    × IsTop (pos 1000) n three
prefer_stable_chosen_example =
    prefer_stable_chosen (pos 1000) (pos 1) three (inr (inl (refl, refl)))
      (omega arith, (omega arith, (omega arith, tt)))

-- The original client is connected, the other is not.
abbrev original_only : Clients ℕ
original_only = (negsuc 0, some toy_client) ∷ (pos 0, some closed_client) ∷ []

-- A client that was connected for an hour, with many failures, and one that has just connected.
abbrev old : Stats
old = record {
  connect_time = pos 1;
  reconnect_count = 50;
  last_reconnect = pos 1;
  send_failure_count = 50;
}

abbrev new : Stats
new = record {
  connect_time = pos 3600001;
  reconnect_count = 0;
  last_reconnect = pos 1;
  send_failure_count = 0;
}
