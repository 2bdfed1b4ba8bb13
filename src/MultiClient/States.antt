-- ===== src/MultiClient/States.antt =====
-- multiclient.go: `GetAllSubConnStates` and `GetClientStats`. The map of the expected numbers is met in any
-- order: the model goes through them in the order of the loop that fills it.
pub mod Report
mod Tests
use nkn_sdk_go.Base.{ℕ, Bool, true, false, List, [], ◌∷◌, map, Option, none, some, if◌then◌else◌}
use nkn_sdk_go.Base.Int.{ℤ}
use nkn_sdk_go.Base.Bytes.{Bytes}
use nkn_sdk_go.Errors.{Error, create_client_failed}
use nkn_sdk_go.Identifier.{add_identifier}
use nkn_sdk_go.Client.State.{Client, Stats, Node, ConnState, connecting, connected, disconnected}
use nkn_sdk_go.MultiClient.Policy.{Clients}
use nkn_sdk_go.MultiClient.Sending.{MultiClient, same_id, get_client, expected_ids}

-- `SubClientConnEvent`
pub record SubClientConnEvent : Type 0 where
  pub base_address : Bytes
  pub sub_address : Bytes
  pub index : ℤ
  pub state : ConnState
  pub error : Option Error
  pub node_addr : Bytes
  pub node_id : Bytes

-- `client, exists := m.clients[index]`
abbrev pub find_client : {W : Type 0} → ℤ → Clients W → Option (Option (Client W))
find_client i [] = none
find_client i ((j, c) ∷ cs) = if same_id j i then some c else find_client i cs

-- `m.clientErrors[index]`
abbrev pub find_error : ℤ → List (ℤ × Error) → Option Error
find_error i [] = none
find_error i ((j, e) ∷ es) = if same_id j i then some e else find_error i es

-- `if connErr == nil { connErr = ErrCreateClientFailed }`
abbrev pub or_failed : Option Error → Error
or_failed none = create_client_failed
or_failed (some e) = e

-- The address and the id of a node.
abbrev pub node_parts : Option Node → Bytes × Bytes
node_parts none = ([], [])
node_parts (some n) = (n.addr, n.id)

-- Those of the node of a client that is connected.
abbrev pub parts_if_connected : ConnState → Option Node → Bytes × Bytes
parts_if_connected connecting n = ([], [])
parts_if_connected connected n = node_parts n
parts_if_connected disconnected n = ([], [])

-- `address` is `Address()` of a client, `base` that of the multiclient, and `errors` the map `clientErrors`.
module _ {W : Type 0} (address : Client W → Bytes) (base : Bytes) (errors : List (ℤ × Error)) where
  -- The zero value of the state is `ConnConnecting`.
  pub event_for : ℤ → Option (Option (Client W)) → SubClientConnEvent
  event_for i none = record {
    base_address = base;
    sub_address = add_identifier base i;
    index = i;
    state = connecting;
    error = some (or_failed (find_error i errors));
    node_addr = [];
    node_id = [];
  }
  event_for i (some none) = record {
    base_address = base;
    sub_address = base;
    index = i;
    state = connecting;
    error = none;
    node_addr = [];
    node_id = [];
  }
  event_for i (some (some c)) =
      let (node_addr, node_id) =
        if c.is_closed then ([], []) else parts_if_connected c.state c.node in
      record {
        base_address = base;
        sub_address = address c;
        index = i;
        state = if c.is_closed then disconnected else c.state;
        error = none;
        node_addr = node_addr;
        node_id = node_id;
      }

  -- `GetAllSubConnStates`
  pub all_sub_conn_states : MultiClient W → List SubClientConnEvent
  unfolding event_for
  all_sub_conn_states m =
      map (λ i. event_for i (find_client i m.clients))
        (expected_ids m.original_client m.num_sub_clients)

-- `GetClientStats`
pub client_stats : {W : Type 0} → ℤ → MultiClient W → Option Stats
client_stats i m = elim (get_client i m.clients) [ none ↦ none | some c ↦ c.stats ]
