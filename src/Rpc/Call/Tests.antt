-- ===== src/Rpc/Call/Tests.antt =====
-- rpc.go: the theorems about `RPCCall` at concrete runs.
use nkn_sdk_go.Base.{
  ℕ, ◌≡◌, refl, ◌≤◌, ◌+◌, ◌*◌, true, Option, none, some, List, [], ◌∷◌, length, arith,
}
use mathlib.Core.Option
use nkn_sdk_go.Base.Int.{ℤ, pos, negsuc}
use nkn_sdk_go.Base.Bytes.{Bytes, text}
use nkn_sdk_go.Errors.{ok, panic}
use nkn_sdk_go.Rpc.Call.{
  ErrResp, Body, null_body, undecodable, decodable, move, Call, Event, hand, failed, answered,
  leave, start, worker_count, step, run, hand_over, drop_one, give_up, deliver, close_worker,
  take_out, keep, to_reply, is_error, is_over, outcome,
}
use nkn_sdk_go.Rpc.Call.Verdict.{verdict}
use nkn_sdk_go.Rpc.Call.Progress.{Completes, call_ends, call-Completes}
use nkn_sdk_go.Rpc.Call.Servers.{has_failed, call_asks_all}

abbrev a_server : Bytes
a_server = text "a"

abbrev b_server : Bytes
b_server = text "b"

abbrev no_error : ErrResp
no_error = record { code = pos 0; message = []; details = [] }

-- A body with the result 7, and one that sets the result to 3 before its error.
abbrev good : Body ℕ
good = decodable no_error (λ x. 7)

abbrev broken : Body ℕ
broken = undecodable (λ x. 3)

abbrev servers : List Bytes
servers = a_server ∷ b_server ∷ []

abbrev mixed : List (Event ℕ)
mixed = hand ∷ hand ∷ failed a_server ∷ answered b_server good ∷ leave ∷ []

abbrev lost : List (Event ℕ)
lost = hand ∷ failed a_server ∷ hand ∷ answered b_server broken ∷ leave ∷ []

-- `run`, with none for a run that is not possible.
abbrev or_start {ℓ} : {R : Type ℓ} → Call R → Option (Call R) → Call R
or_start s none = s
or_start s (some t) = t

abbrev after : ℤ → List (Event ℕ) → Call ℕ
after n es = or_start (start 0 n servers) (run true es (start 0 n servers))

mixed_done : run true mixed (start 0 (pos 2) servers) ≡ some (after (pos 2) mixed)
unfolding run step move hand_over drop_one give_up deliver close_worker take_out keep to_reply
    is_error Option.bind start worker_count
mixed_done = refl

verdict-mixed : verdict 0 mixed ≡ ok 7
unfolding verdict outcome to_reply is_error
verdict-mixed = refl

-- A field that a broken body has set stays; `null` makes the call panic.
abbrev halves : List (Event ℕ)
halves =
    hand
    ∷ hand
    ∷ answered a_server broken
    ∷ answered b_server (decodable no_error (λ x. x))
    ∷ leave
    ∷ []

verdict-halves : verdict 0 halves ≡ ok 3
unfolding verdict outcome to_reply is_error
verdict-halves = refl

verdict-null : verdict {R = ℕ} 0 (hand ∷ answered a_server null_body ∷ []) ≡ panic
unfolding verdict outcome
verdict-null = refl

abbrev mixed_bound : ℕ
mixed_bound = 3 * 2 + worker_count (pos 2) servers + 1

call_ends_example : length mixed ≤ mixed_bound
call_ends_example = call_ends true 0 (pos 2) servers mixed (after (pos 2) mixed) mixed_done

begun_done : run true (hand ∷ []) (start 0 (pos 2) servers) ≡ some (after (pos 2) (hand ∷ []))
unfolding run step move hand_over drop_one give_up deliver close_worker take_out keep to_reply
    is_error Option.bind start worker_count
begun_done = refl

call-Completes_example : Completes (after (pos 2) (hand ∷ []))
unfolding worker_count run Option.bind start
call-Completes_example =
    call-Completes 0 (pos 2) servers (hand ∷ []) (after (pos 2) (hand ∷ [])) (omega arith)
      begun_done refl

abbrev no_event : List (Event ℕ)
no_event = []

stuck_done : run true no_event (start 0 (negsuc 0) servers) ≡ some (start 0 (negsuc 0) servers)
unfolding run
stuck_done = refl

lost_done : run true lost (start 0 (pos 1) servers) ≡ some (after (pos 1) lost)
unfolding run step move hand_over drop_one give_up deliver close_worker take_out keep to_reply
    is_error Option.bind start worker_count
lost_done = refl

lost_over : is_over (after (pos 1) lost) ≡ true
unfolding run step move hand_over drop_one give_up deliver close_worker take_out keep to_reply
    is_error Option.bind start worker_count is_over
lost_over = refl

call_asks_all_example : has_failed b_server lost ≡ true
unfolding run Option.bind start
call_asks_all_example =
    call_asks_all 0 (pos 1) servers lost (after (pos 1) lost) lost_done lost_over refl refl refl
      b_server refl
