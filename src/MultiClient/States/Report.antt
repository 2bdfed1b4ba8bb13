-- ===== src/MultiClient/States/Report.antt =====
-- multiclient.go: what a report of `GetAllSubConnStates` says of a client.
use nkn_sdk_go.Base.{
  ◌≡◌, refl, sym, ap, not, ◌&&◌, ◌∙◌, Bool, true, false, List, [], ◌∷◌, map, Option, none, some,
  if◌then◌else◌,
}
use nkn_sdk_go.Base.Int.{ℤ}
use nkn_sdk_go.Base.Bytes.{Bytes}
use nkn_sdk_go.Errors.{Error}
use nkn_sdk_go.Client.State.{Client, Node, ConnState, connecting, connected, disconnected}
use nkn_sdk_go.MultiClient.Policy.{Clients, is_connected, is_sending}
use nkn_sdk_go.MultiClient.Sending.{MultiClient, same_id, get_client, expected_ids}
use nkn_sdk_go.MultiClient.States.{
  SubClientConnEvent, find_client, node_parts, parts_if_connected, event_for, all_sub_conn_states,
}

module _ {W : Type 0} (address : Client W → Bytes) (base : Bytes) (errors : List (ℤ × Error)) where
  -- What a report says of a client: an error just if there is no client, the state connected just if the
  -- client is one to send with, and then the node that it is connected to.
  pub record IsTruthful (cs : Clients W) (i : ℤ) (e : SubClientConnEvent) : Type 0 where
    pub index_eq : e.index ≡ i
    pub absent :
        (e.error ≡ none → ¬ (find_client i cs ≡ none))
        × (¬ (find_client i cs ≡ none) → e.error ≡ none)
    pub sends :
        (e.state ≡ connected → is_sending (get_client i cs) ≡ true)
        × (is_sending (get_client i cs) ≡ true → e.state ≡ connected)
    pub node_of :
        (c : Client W)
        → get_client i cs ≡ some c
        → e.state ≡ connected
        → (e.sub_address ≡ address c) × ((e.node_addr, e.node_id) ≡ node_parts c.node)

  abbrev found : Option (Option (Client W)) → Option (Client W)
  found none = none
  found (some c) = c

  found-if :
      (b : Bool) (c : Option (Client W)) (o : Option (Option (Client W))) {d : Option (Client W)}
      → d ≡ found o
      → (if b then c else d) ≡ found (if b then some c else o)
  found-if true c o h = refl
  found-if false c o h = h

  some-injective : {c d : Client W} → some c ≡ some d → c ≡ d
  some-injective h = cc

  get_client-find_client : (i : ℤ) (cs : Clients W) → get_client i cs ≡ found (find_client i cs)
  get_client-find_client i [] = refl
  get_client-find_client i ((j, c) ∷ cs) =
      found-if (same_id j i) c (find_client i cs) (get_client-find_client i cs)

  -- The state of a client is connected just if it is open and connected.
  reported_state :
      (closed : Bool) (s : ConnState)
      → ((if closed then disconnected else s) ≡ connected → (not closed && is_connected s) ≡ true)
        × ((not closed && is_connected s) ≡ true → (if closed then disconnected else s) ≡ connected)
  reported_state true s = (λ h. cc, λ h. cc)
  reported_state false connecting = (λ h. cc, λ h. cc)
  reported_state false connected = (λ h. refl, λ h. refl)
  reported_state false disconnected = (λ h. cc, λ h. cc)

  event_for-sends :
      (i : ℤ) (o : Option (Option (Client W)))
      → ((event_for address base errors i o).state ≡ connected → is_sending (found o) ≡ true)
        × (is_sending (found o) ≡ true → (event_for address base errors i o).state ≡ connected)
  unfolding event_for
  event_for-sends i none = (λ h. cc, λ h. cc)
  event_for-sends i (some none) = (λ h. cc, λ h. cc)
  event_for-sends i (some (some c)) = reported_state c.is_closed c.state

  event_for-absent :
      (i : ℤ) (o : Option (Option (Client W)))
      → ((event_for address base errors i o).error ≡ none → ¬ (o ≡ none))
        × (¬ (o ≡ none) → (event_for address base errors i o).error ≡ none)
  unfolding event_for
  event_for-absent i none = (λ h. cc, λ h. absurd (h refl))
  event_for-absent i (some none) = (λ h k. cc, λ h. refl)
  event_for-absent i (some (some c)) = (λ h k. cc, λ h. refl)

  reported_parts :
      (closed : Bool) (s : ConnState) (o : Option Node)
      → (if closed then disconnected else s) ≡ connected
      → (if closed then ([], []) else parts_if_connected s o) ≡ node_parts o
  reported_parts true s o h = cc
  reported_parts false connecting o h = cc
  reported_parts false connected o h = refl
  reported_parts false disconnected o h = cc

  event_for-node :
      (i : ℤ) (o : Option (Option (Client W))) (c : Client W)
      → found o ≡ some c
      → (event_for address base errors i o).state ≡ connected
      → ((event_for address base errors i o).sub_address ≡ address c)
        × ((
          (event_for address base errors i o).node_addr,
          (event_for address base errors i o).node_id,
        )
            ≡ node_parts c.node)
  unfolding event_for
  event_for-node i none c h k = cc
  event_for-node i (some none) c h k = cc
  event_for-node i (some (some d)) c h k =
      let same : d ≡ c = some-injective h in
      (
        ap address same,
        reported_parts d.is_closed d.state d.node k ∙ ap (λ (x : Client W). node_parts x.node) same,
      )

  event_for-index :
      (i : ℤ) (o : Option (Option (Client W))) → (event_for address base errors i o).index ≡ i
  unfolding event_for
  event_for-index i none = refl
  event_for-index i (some none) = refl
  event_for-index i (some (some c)) = refl

  event_for-IsTruthful :
      (cs : Clients W) (i : ℤ)
      → IsTruthful cs i (event_for address base errors i (find_client i cs))
  event_for-IsTruthful cs i =
      let o = find_client i cs in
      let same = get_client-find_client i cs in
      let (to, from) = event_for-sends i o in
      record {
        index_eq = event_for-index i o;
        absent = event_for-absent i o;
        sends = (λ h. ap is_sending same ∙ to h, λ h. from (ap is_sending (sym same) ∙ h));
        node_of = λ c h k. event_for-node i o c (sym same ∙ h) k;
      }

  -- A truthful report for each number, in order.
  abbrev pub Each : Clients W → List ℤ → List SubClientConnEvent → Type 0
  Each cs [] [] = Unit
  Each cs [] (e ∷ es) = ⊥
  Each cs (i ∷ is) [] = ⊥
  Each cs (i ∷ is) (e ∷ es) = IsTruthful cs i e × Each cs is es

  events-Each :
      (cs : Clients W) (is : List ℤ)
      → Each cs is (map (λ i. event_for address base errors i (find_client i cs)) is)
  events-Each cs [] = tt
  events-Each cs (i ∷ is) = (event_for-IsTruthful cs i, events-Each cs is)

  -- GetAllSubConnStates has one report for each number that a client of the multiclient can have. It holds an
  -- error just if there is no client of that number; its state is connected just if the client is there,
  -- open and connected, which is when the policies count it as connected; and then it has the client's
  -- address and its node.
  pub all_sub_conn_states-Each :
      (m : MultiClient W)
      → Each m.clients
          (expected_ids m.original_client m.num_sub_clients)
          (all_sub_conn_states address base errors m)
  unfolding all_sub_conn_states
  all_sub_conn_states-Each m =
      events-Each m.clients (expected_ids m.original_client m.num_sub_clients)
