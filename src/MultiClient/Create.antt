-- ===== src/MultiClient/Create.antt =====
-- multiclient.go: how `NewMultiClient` creates the clients. One goroutine for each client enters it, or
-- the error, under the lock, in any order; another waits for all of them. What `NewClient` makes is a
-- parameter `C`.
pub mod Default
mod Tests
use nkn_sdk_go.Base.{ℕ, ◌≡◌, Bool, true, false, List, [], ◌∷◌, Option, none, some, if◌then◌else◌}
use nkn_sdk_go.Base.Int.{ℤ, pos, ltb_ℤ}
use nkn_sdk_go.Errors.{Error, Outcome, ok, err, create_client_failed}
use nkn_sdk_go.MultiClient.Sending.{expected_ids}

-- What `NewClient` returns.
pub data Made (C : Type 0) : Type 0 where
  made : C → Made C
  not_made : Error → Made C

-- The fields `clients`, `clientErrors`, `defaultClient`, `isClosed` and `createDone` of `MultiClient`, the
-- variable `defaultClientIdx`, and what the channels `success` and `fail` hold. The numbers are those of
-- the loop, each once, so a new entry of a map stands beside the others.
pub record Creation (C : Type 0) : Type 0 where
  pub clients : List (ℤ × C)
  pub client_errors : List (ℤ × Error)
  pub default_client : Option C
  pub default_client_idx : ℤ
  pub is_closed : Bool
  pub create_done : Bool
  pub success : Bool
  pub fail : Bool

-- What the loop starts with.
pub new_creation : {C : Type 0} → ℕ → Creation C
new_creation num_sub_clients = record {
  clients = [];
  client_errors = [];
  default_client = none;
  default_client_idx = pos num_sub_clients;
  is_closed = false;
  create_done = false;
  success = false;
  fail = false;
}

module _ {C : Type 0} where
  -- `if i < defaultClientIdx { ... }`
  pub choose_default : ℤ → C → Creation C → Creation C
  choose_default i c s =
      if ltb_ℤ i s.default_client_idx
      then record s { default_client = some c; default_client_idx = i }
      else s

  -- The goroutine of client `i`, when `NewClient` has returned; on a closed multiclient it closes the
  -- client again.
  pub finish : ℤ → Made C → Creation C → Creation C
  unfolding choose_default
  finish i (made c) s =
      if s.is_closed
      then s
      else record (choose_default i c (record s { clients = (i, c) ∷ s.clients })) {
        success = true;
      }
  finish i (not_made e) s = record s { client_errors = (i, e) ∷ s.client_errors }

  -- The goroutines end in the order of the list.
  pub finish_all : List (ℤ × Made C) → Creation C → Creation C
  unfolding finish
  finish_all [] s = s
  finish_all ((i, o) ∷ rest) s = finish_all rest (finish i o s)

  -- The goroutine that waits for all of them.
  pub all_done : Creation C → Creation C
  all_done s = record s { create_done = true; fail = true }

  -- What the last `select` of `NewMultiClient` can come back with; where both channels hold something,
  -- Go takes either.
  pub data Returns (s : Creation C) : Outcome (Creation C) → Type 0 where
    takes_success : s.success ≡ true → Returns s (ok s)
    takes_fail : s.fail ≡ true → Returns s (err create_client_failed)
