-- ===== src/MultiClient/Sending.antt =====
-- multiclient.go: `sendWithClient`, and the loop of `send` over the clients that the policy has chosen.
-- `send` returns as soon as one client has sent, and the loop goes on; the model is the whole loop. The
-- loop of `Send`, with its events and reply channels, is in Spread.
pub mod Trace
pub mod Unique
pub mod Result
mod Tests
use nkn_sdk_go.Base.{
  ℕ, zero, suc, Bool, true, false, not, List, [], ◌∷◌, ◌++◌, map, Option, none, some, if◌then◌else◌,
}
use nkn_sdk_go.Base.Int.{ℤ, pos, negsuc, leb_ℤ, ltb_ℤ}
use nkn_sdk_go.Base.Bytes.{Bytes}
use nkn_sdk_go.Errors.{Error, Outcome, ok, err, panic, nil_client}
use nkn_sdk_go.Action.{Action}
use nkn_sdk_go.Message.{Nacl, Codec, Payload, Content, new_reply_payload}
use nkn_sdk_go.Identifier.{add_multi_client_prefix, add_prefix_for_all}
use nkn_sdk_go.Client.State.{Client, Net, Message}
use nkn_sdk_go.Client.Outbound.{Signing}
use nkn_sdk_go.Client.Batch.{send_timeout}
use nkn_sdk_go.MultiClient.Policy.{
  CrossSendPolicy, no_cross_send, any_connected, all_connected, prefer_stable, unknown, Clients,
  clients_by_policy,
}

-- `MultiClient`
pub record MultiClient (W : Type 0) : Type 0 where
  pub clients : Clients W
  pub policy : CrossSendPolicy
  pub num_sub_clients : ℕ
  pub original_client : Bool

-- The numbers are equal.
abbrev pub same_id : ℤ → ℤ → Bool
same_id i j = if leb_ℤ i j then leb_ℤ j i else false

-- `GetClient`; a missing client is nil too.
abbrev pub get_client : {W : Type 0} → ℤ → Clients W → Option (Client W)
get_client i [] = none
get_client i ((j, c) ∷ cs) = if same_id j i then c else get_client i cs

abbrev pub set_client : {W : Type 0} → ℤ → Client W → Clients W → Clients W
set_client i c [] = []
set_client i c ((j, d) ∷ cs) =
    let rest = set_client i c cs in if same_id j i then (j, some c) ∷ cs else (j, d) ∷ rest

-- 0, 1, ... below n
abbrev pub numbers_below : ℕ → List ℤ
numbers_below zero = []
numbers_below (suc n) = numbers_below n ++ pos n ∷ []

-- `for i := -offset; i < numSubClients; i++ { ... }`
abbrev pub expected_ids : Bool → ℕ → List ℤ
expected_ids original n = if original then negsuc 0 ∷ numbers_below n else numbers_below n

abbrev pub is_cross_send : CrossSendPolicy → Bool
is_cross_send no_cross_send = false
is_cross_send any_connected = true
is_cross_send all_connected = true
is_cross_send prefer_stable = true
is_cross_send unknown = true

-- `finalDests`
unfoldable pub final_dests : {W : Type 0} → MultiClient W → ℤ → List Bytes → List Bytes
final_dests m i dests =
    if is_cross_send m.policy
    then add_prefix_for_all dests (expected_ids m.original_client m.num_sub_clients)
    else add_multi_client_prefix dests i

abbrev pub is_seen : ℤ → List ℤ → Bool
is_seen i [] = false
is_seen i (j ∷ js) = if same_id j i then true else is_seen i js

-- The numbers that `seen` does not hold, each once.
unfoldable pub unique_from : List ℤ → List ℤ → List ℤ
unique_from seen [] = []
unique_from seen (i ∷ is) =
    let rest = unique_from seen is in
    let rest' = unique_from (i ∷ seen) is in if is_seen i seen then rest else i ∷ rest'

-- `uniqueClientIDs`
unfoldable pub unique_client_ids : List ℤ → List ℤ
unfolding unique_from
unique_client_ids is = unique_from [] is

-- How `Send` returns: without an error, or with those of all clients; none is the error nil.
pub data SendResult : Type 0 where
  delivered : SendResult
  failed : List Error → SendResult

module _ {W : Type 0} (nacl : Nacl W) (codec : Codec) (secret : Bytes) (signing : Signing W)
    (net : Net W) (process_dests : List Bytes → Action W (List Bytes)) where
  abbrev pub send_with_found :
      Option (Client W) → ℤ → List Bytes → Payload → Bool → ℤ → Action (MultiClient W) (Unit {0})
  send_with_found none i dests payload encrypted holding m = (err nil_client, m)
  send_with_found (some c) i dests payload encrypted holding m =
      let (o, c') =
        send_timeout nacl codec secret signing net process_dests (final_dests m i dests) payload
          encrypted holding c in
      (o, record m { clients = set_client i c' m.clients })

  -- `sendWithClient`
  unfoldable pub send_with_client :
      ℤ → List Bytes → Payload → Bool → ℤ → Action (MultiClient W) (Unit {0})
  unfolding final_dests
  send_with_client i dests payload encrypted holding m =
      send_with_found (get_client i m.clients) i dests payload encrypted holding m

  -- What a client returns, added to whether a client has sent, and the errors.
  abbrev pub count : Outcome (Unit {0}) → Bool × List Error → Outcome (Bool × List Error)
  count (ok u) (sent, errs) = ok (true, errs)
  count (err e) (sent, errs) = ok (sent, errs ++ e ∷ [])
  count panic t = panic

  abbrev pub then_rest :
      Outcome (Bool × List Error)
      → (Bool × List Error → MultiClient W → Outcome (Bool × List Error) × MultiClient W)
      → MultiClient W
      → Outcome (Bool × List Error) × MultiClient W
  then_rest (ok t) f m = f t m
  then_rest (err e) f m = (err e, m)
  then_rest panic f m = (panic, m)

  -- The loop of `send`.
  pub send_each :
      List ℤ
      → List Bytes
      → Payload
      → Bool
      → ℤ
      → Bool × List Error
      → MultiClient W
      → Outcome (Bool × List Error) × MultiClient W
  unfolding send_with_client
  send_each [] dests payload encrypted holding t m = (ok t, m)
  send_each (i ∷ is) dests payload encrypted holding t m =
      let (o, m') = send_with_client i dests payload encrypted holding m in
      then_rest (count o t) (send_each is dests payload encrypted holding) m'

  abbrev pub result_of : Outcome (Bool × List Error) → Outcome SendResult
  result_of (ok (true, errs)) = ok delivered
  result_of (ok (false, errs)) = ok (failed errs)
  result_of (err e) = err e
  result_of panic = panic

  -- `send`; `now` is the time that the policy reads.
  pub send :
      ℤ → List Bytes → Payload → Bool → ℤ → MultiClient W → Outcome SendResult × MultiClient W
  unfolding send_each
  send now dests payload encrypted holding m =
      let (o, m') =
        send_each (clients_by_policy m.policy now m.clients) dests payload encrypted holding
          (false, []) m in
      (result_of o, m')

  abbrev pub reply_with :
      ℤ → Message → Outcome Payload → MultiClient W → Outcome SendResult × MultiClient W
  reply_with now msg (ok payload) m = send now (msg.src ∷ []) payload msg.encrypted (pos 0) m
  reply_with now msg (err e) m = (err e, m)
  reply_with now msg panic m = (panic, m)

  -- `msg.reply` of a message on the channel of a multiclient, called in a world `w`.
  pub reply_by_policy :
      ℤ → W → Message → Content → MultiClient W → Outcome SendResult × MultiClient W
  unfolding send
  reply_by_policy now w msg content m =
      if msg.no_reply
      then (ok delivered, m)
      else reply_with now msg (new_reply_payload nacl codec content msg.message_id w).0 m
