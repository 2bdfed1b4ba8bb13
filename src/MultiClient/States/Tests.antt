-- ===== src/MultiClient/States/Tests.antt =====
-- multiclient.go: the reports of a multiclient with a connected client, a closed one, and one that could not
-- be made.
use nkn_sdk_go.Base.{ℕ, ◌≡◌, refl, true, Option, some, none, List, [], ◌∷◌, map}
use nkn_sdk_go.Base.Int.{ℤ, pos, negsuc}
use nkn_sdk_go.Base.Bytes.{Bytes, text}
use nkn_sdk_go.Errors.{Error, external}
use nkn_sdk_go.Client.State.{Client, ConnState, connecting, connected, disconnected}
use nkn_sdk_go.MultiClient.Policy.{no_cross_send}
use nkn_sdk_go.MultiClient.Sending.{MultiClient, expected_ids}
use nkn_sdk_go.MultiClient.States.{all_sub_conn_states, event_for}
use nkn_sdk_go.MultiClient.States.Report.{Each, all_sub_conn_states-Each}
use nkn_sdk_go.Fixtures.Clients.{toy_client}

abbrev half : MultiClient ℕ
half = record {
  clients =
      (pos 0, some toy_client) ∷ (negsuc 0, some (record toy_client { is_closed = true })) ∷ [];
  policy = no_cross_send;
  num_sub_clients = 2;
  original_client = true;
}

abbrev address : Client ℕ → Bytes
address c = text "sub"

abbrev errors : List (ℤ × Error)
errors = (pos 1, external (pos 9)) ∷ []

states_seen :
    map {B = ConnState × Option Error}
      (λ e. (e.state, e.error))
      (all_sub_conn_states address (text "a") errors half)
    ≡ (disconnected, none) ∷ (connected, none) ∷ (connecting, some (external (pos 9))) ∷ []
unfolding all_sub_conn_states event_for
states_seen = refl

all_sub_conn_states-Each_example :
    Each address
      (text "a")
      errors
      half.clients
      (expected_ids true 2)
      (all_sub_conn_states address (text "a") errors half)
all_sub_conn_states-Each_example = all_sub_conn_states-Each address (text "a") errors half
