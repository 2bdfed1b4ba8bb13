-- ===== src/Rpc/Call.antt =====
-- rpc.go: `RPCCall`. The goroutines that post the request, the loop that hands them the addresses of
-- the servers, and the caller's context take their steps in any order: an event is one step of one of
-- them, and a run is a list of events. Workers are interchangeable, so an idle one is only counted.
-- A worker holds `respLock` from its test of the context until it has answered, which is one step. All
-- bodies are decoded into the same `result`, and a panic in a worker ends the program.
pub mod Verdict
pub mod Progress
pub mod Servers
mod Tests
use nkn_sdk_go.Base.{
  ℕ, zero, suc, Bool, true, false, not, ◌&&◌, ◌||◌, ◌==◌, Option, none, some, List, [], ◌∷◌, length,
  if◌then◌else◌,
}
use mathlib.Core.Option
use nkn_sdk_go.Base.Int.{ℤ, pos, negsuc}
use nkn_sdk_go.Base.Bytes.{Bytes, bytes_eq}
use nkn_sdk_go.Errors.{Outcome, ok, err, panic, coded}
use nkn_sdk_go.Resolver.{is_empty}

-- `errCodeNetworkError`
abbrev pub network_error : ℤ
network_error = negsuc 50000

-- `errCodeEncodeError`
abbrev pub encode_error : ℤ
encode_error = negsuc 50002

-- `errCodeCanceled`
abbrev pub canceled : ℤ
canceled = negsuc 50002

-- `errResp`
pub record ErrResp : Type 0 where
  pub code : ℤ
  pub message : Bytes
  pub details : Bytes

-- What `json.Unmarshal(body, &resp)` does with a body: `null` makes `resp` nil; an error may come after
-- some of the fields of `result` were set; and without one `resp.Error` is read, and `result` changed by
-- what the body has for it.
pub data Body {ℓ} (R : Type ℓ) : Type ℓ where
  null_body : Body R
  undecodable : (R → R) → Body R
  decodable : ErrResp → (R → R) → Body R

abbrev pub is_zero : ℤ → Bool
is_zero (pos zero) = true
is_zero (pos (suc n)) = false
is_zero (negsuc n) = false

-- `resp.Error.Code != 0 || len(resp.Error.Data) > 0 || len(resp.Error.Message) > 0`
pub is_error : ErrResp → Bool
is_error e = not (is_zero e.code) || (not (is_empty e.details) || not (is_empty e.message))

-- What a worker sends to `respErrChan`, with `result` when this is nil.
pub data Reply {ℓ} (R : Type ℓ) : Type ℓ where
  node_error : ErrResp → Reply R
  success : R → Reply R

pub to_reply {ℓ} : {R : Type ℓ} → ErrResp → R → Reply R
to_reply e x = if is_error e then node_error e else success x

-- The state of a call: the addresses that the loop has still to hand out, the workers that wait for
-- one, the addresses that are being posted to, `result`, the buffer of `respErrChan`, whether `ctx` and
-- `parentCtx` are done, and whether a worker has panicked.
pub record Call {ℓ} (R : Type ℓ) : Type ℓ where
  pub todo : List Bytes
  pub idle : ℕ
  pub posting : List Bytes
  pub result : R
  pub response : Option (Reply R)
  pub done : Bool
  pub parent_done : Bool
  pub crashed : Bool

-- `hand`: the loop gives an address to a worker; `skip`: it drops one, since `ctx` is done;
-- `failed a`: the post to `a` fails; `answered a b`: it returns the body `b`;
-- `leave`: a worker finds `rpcAddrChan` closed; `cancel`: the caller's context is done.
pub data Event {ℓ} (R : Type ℓ) : Type ℓ where
  hand skip leave cancel : Event R
  failed : Bytes → Event R
  answered : Bytes → Body R → Event R

-- The number of workers; a negative number starts none.
pub worker_count : ℤ → List Bytes → ℕ
worker_count (pos zero) servers = length servers
worker_count (pos (suc n)) servers = suc n
worker_count (negsuc n) servers = 0

pub start {ℓ} : {R : Type ℓ} → R → ℤ → List Bytes → Call R
unfolding worker_count
start x concurrency servers = record {
  todo = servers;
  idle = worker_count concurrency servers;
  posting = [];
  result = x;
  response = none;
  done = false;
  parent_done = false;
  crashed = false;
}

keep : Bytes → Option (List Bytes) → Option (List Bytes)
keep b none = none
keep b (some bs) = some (b ∷ bs)

-- The addresses that are being posted to, one post to `a` less; none when there is no such post.
pub take_out : Bytes → List Bytes → Option (List Bytes)
unfolding keep
take_out a [] = none
take_out a (b ∷ bs) = if bytes_eq a b then some bs else keep b (take_out a bs)

module _ {ℓ} {R : Type ℓ} where
  -- `case rpcAddrChan <- rpcAddr`: a worker whose config has no dial function logs and returns.
  pub hand_over : Bool → List Bytes → ℕ → Call R → Option (Call R)
  hand_over can_dial [] n s = none
  hand_over can_dial (a ∷ rest) zero s = none
  hand_over can_dial (a ∷ rest) (suc n) s =
      some (record s {
        todo = rest;
        idle = n;
        posting = if can_dial then a ∷ s.posting else s.posting;
      })

  -- `case <-ctx.Done()`; the `break` leaves the select only.
  pub drop_one : Bool → List Bytes → Call R → Option (Call R)
  drop_one false todo s = none
  drop_one true [] s = none
  drop_one true (a ∷ rest) s = some (record s { todo = rest })

  -- A worker whose post is over: it returns if `ctx` is done, and takes another address otherwise.
  pub give_up : List Bytes → Call R → Call R
  give_up bs s =
      if s.done then record s { posting = bs } else record s { posting = bs; idle = suc s.idle }

  -- A worker that has a body returns if `ctx` is done. Otherwise it decodes the body: what does not
  -- decode is logged, an answer is sent, and a nil `resp` makes it panic.
  pub deliver : List Bytes → Body R → Call R → Call R
  unfolding give_up to_reply is_error
  deliver bs null_body s =
      if s.done then record s { posting = bs } else record s { posting = bs; crashed = true }
  deliver bs (undecodable f) s =
      if s.done
      then record s { posting = bs }
      else record s { posting = bs; idle = suc s.idle; result = f s.result }
  deliver bs (decodable e f) s = if s.done then record s { posting = bs } else record s {
    posting = bs;
    result = f s.result;
    response = some (to_reply e (f s.result));
    done = true;
  }

  -- A worker returns when the channel is closed.
  pub close_worker : List Bytes → ℕ → Call R → Option (Call R)
  close_worker [] (suc n) s = some (record s { idle = n })
  close_worker [] zero s = none
  close_worker (a ∷ rest) n s = none

  -- A step of a program that runs.
  pub move : Bool → Event R → Call R → Option (Call R)
  unfolding hand_over drop_one give_up deliver close_worker take_out
  move can_dial hand s = hand_over can_dial s.todo s.idle s
  move can_dial skip s = drop_one s.done s.todo s
  move can_dial (failed a) s = Option.map (λ bs. give_up bs s) (take_out a s.posting)
  move can_dial (answered a b) s = Option.map (λ bs. deliver bs b s) (take_out a s.posting)
  move can_dial leave s = close_worker s.todo s.idle s
  move can_dial cancel s =
      if s.parent_done then none else some (record s { done = true; parent_done = true })

  abbrev pub if_running : Bool → Option (Call R) → Option (Call R)
  if_running true o = none
  if_running false o = o

  pub step : Bool → Event R → Call R → Option (Call R)
  unfolding move
  step can_dial e s = if_running s.crashed (move can_dial e s)

  -- A run, event by event; none when an event was not possible.
  pub run : Bool → List (Event R) → Call R → Option (Call R)
  unfolding step
  run can_dial [] s = some s
  run can_dial (e ∷ es) s = Option.bind (step can_dial e s) (run can_dial es)

  -- `wg.Wait()` returns: the loop is over, and so are all workers.
  pub is_over : Call R → Bool
  is_over s = is_empty s.todo && ((s.idle == 0) && is_empty s.posting)

  -- What `RPCCall` returns then, unless a worker has panicked.
  pub outcome : Bool → Bool → Option (Reply R) → Outcome R
  outcome true canceled_ r = panic
  outcome false true r = err (coded canceled)
  outcome false false none = err (coded network_error)
  outcome false false (some (node_error e)) = err (coded e.code)
  outcome false false (some (success r)) = ok r
