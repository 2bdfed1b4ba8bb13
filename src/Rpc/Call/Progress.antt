-- ===== src/Rpc/Call/Progress.antt =====
-- rpc.go: `RPCCall` comes to an end.
use nkn_sdk_go.Base.{
  ◌≡◌, refl, ℕ, zero, suc, ◌+◌, ◌-◌, ◌*◌, ◌≤◌, ◌<◌, Bool, true, false, Option, none, some, List, [],
  ◌∷◌, length, inl, inr, Bool-cases, if◌then◌else◌, arith,
}
use mathlib.Core.Option
use nkn_sdk_go.Base.Int.{ℤ, negsuc}
use nkn_sdk_go.Base.Bytes.{Bytes, bytes_eq, bytes_eq_refl}
use nkn_sdk_go.Resolver.{is_empty}
use nkn_sdk_go.Rpc.Call.{
  Call, Event, hand, skip, failed, answered, leave, cancel, start, worker_count, keep, take_out,
  Body, null_body, undecodable, decodable, move, hand_over, drop_one, give_up, deliver,
  close_worker, if_running, step, run, is_over,
}
use nkn_sdk_go.Rpc.Call.Verdict.{bind-eq-some, map-eq-some, is_canceled}

length-keep :
    (b : Bytes) (o : Option (List Bytes)) (cs : List Bytes)
    → keep b o ≡ some cs
    → (bs : List Bytes) × (o ≡ some bs) × (length cs ≡ suc (length bs))
unfolding keep
length-keep b none cs h = cc
length-keep b (some bs) cs h = (bs, refl, grind arith)

length-take_out :
    (a : Bytes) (bs cs : List Bytes) → take_out a bs ≡ some cs → length bs ≡ suc (length cs)
unfolding take_out
length-take_out a [] cs h = cc
length-take_out a (b ∷ bs) cs h = elim (Bool-cases (bytes_eq a b)) [
  | inl e ↦ ground (arith, e)
  | inr e ↦
      let (ds, q, n) = length-keep b (take_out a bs) cs (ground (arith, e)) in
      omega (arith, n, length-take_out a bs ds q)
]

module _ {ℓ} {R : Type ℓ} where
  -- A bound for the steps that a call can still take.
  abbrev pub measure : Call R → ℕ
  measure s = 3 * length s.todo + 2 * length s.posting + s.idle + (if s.parent_done then 0 else 1)

  if_running-eq-some :
      (b : Bool) (o : Option (Call R)) (t : Call R)
      → if_running b o ≡ some t
      → (b ≡ false) × (o ≡ some t)
  if_running-eq-some true o t h = cc
  if_running-eq-some false o t h = (refl, h)

  -- A step is one of a program that runs.
  pub moved :
      (can_dial : Bool) (e : Event R) (s t : Call R)
      → step can_dial e s ≡ some t
      → (s.crashed ≡ false) × (move can_dial e s ≡ some t)
  unfolding step
  moved d e s t h = if_running-eq-some s.crashed (move d e s) t h

  deliver-measure :
      (b : Body R) (bs : List Bytes) (s t : Call R)
      → deliver bs b s ≡ t
      → length s.posting ≡ suc (length bs)
      → suc (measure t) ≤ measure s
  unfolding deliver
  deliver-measure null_body bs s t e l = ground (arith, e, l)
  deliver-measure (undecodable f) bs s t e l = ground (arith, e, l)
  deliver-measure (decodable z f) bs s t e l = ground (arith, e, l)

  step-measure :
      (can_dial : Bool) (e : Event R) (s : Call R) (t : Call R)
      → step can_dial e s ≡ some t
      → suc (measure t) ≤ measure s
  unfolding step move hand_over drop_one give_up deliver close_worker
  step-measure d hand s t h = ground arith
  step-measure d skip s t h = ground arith
  step-measure d (failed a) s t h =
      let (running, h') = moved d (failed a) s t h in
      let (bs, q, e) =
        map-eq-some {A = List Bytes} (λ bs. give_up bs s) (take_out a s.posting) h' in
      ground (arith, length-take_out a s.posting bs q, e)
  step-measure d (answered a b) s t h =
      let (running, h') = moved d (answered a b) s t h in
      let (bs, q, e) =
        map-eq-some {A = List Bytes} (λ bs. deliver bs b s) (take_out a s.posting) h' in
      let l = length-take_out a s.posting bs q in deliver-measure b bs s t e l
  step-measure d leave s t h = ground arith
  step-measure d cancel s t h = ground arith

  run-measure :
      (can_dial : Bool) (es : List (Event R)) (s t : Call R)
      → run can_dial es s ≡ some t
      → length es + measure t ≤ measure s
  unfolding run
  run-measure d [] s t h = ground arith
  run-measure d (e ∷ es) s t h =
      let (m, first, rest) = bind-eq-some (step d e s) (run d es) h in
      omega (arith, step-measure d e s m first, run-measure d es m t rest)

  -- As long as there are addresses, and the context is not done, all workers are there.
  abbrev IsManned : ℕ → Call R → Type 0
  IsManned n s =
      (is_empty s.todo ≡ false → s.done ≡ false → s.crashed ≡ false → s.idle + length s.posting ≡ n)

  deliver-IsManned :
      (n : ℕ) (b : Body R) (bs : List Bytes) (s t : Call R)
      → IsManned n s
      → deliver bs b s ≡ t
      → length s.posting ≡ suc (length bs)
      → s.crashed ≡ false
      → IsManned n t
  unfolding deliver
  deliver-IsManned n null_body bs s t m e l c = ground (arith, e, l)
  deliver-IsManned n (undecodable f) bs s t m e l c = ground (arith, e, l)
  deliver-IsManned n (decodable z f) bs s t m e l c = ground (arith, e, l)

  step-IsManned :
      (n : ℕ) (e : Event R) (s t : Call R) → IsManned n s → step true e s ≡ some t → IsManned n t
  unfolding step move hand_over drop_one give_up deliver close_worker
  step-IsManned n hand s t m h = ground arith
  step-IsManned n skip s t m h = ground arith
  step-IsManned n (failed a) s t m h =
      let (running, h') = moved true (failed a) s t h in
      let (bs, o, e) =
        map-eq-some {A = List Bytes} (λ bs. give_up bs s) (take_out a s.posting) h' in
      ground (arith, length-take_out a s.posting bs o, e)
  step-IsManned n (answered a b) s t m h =
      let (running, h') = moved true (answered a b) s t h in
      let (bs, o, e) =
        map-eq-some {A = List Bytes} (λ bs. deliver bs b s) (take_out a s.posting) h' in
      deliver-IsManned n b bs s t m e (length-take_out a s.posting bs o) running
  step-IsManned n leave s t m h = ground arith
  step-IsManned n cancel s t m h = ground arith

  run-IsManned :
      (n : ℕ) (es : List (Event R)) (s t : Call R)
      → IsManned n s
      → run true es s ≡ some t
      → IsManned n t
  unfolding run
  run-IsManned n [] s t m h = ground arith
  run-IsManned n (e ∷ es) s t m h =
      let (u, first, rest) = bind-eq-some (step true e s) (run true es) h in
      run-IsManned n es u t (step-IsManned n e s u m first) rest

  -- The event is possible.
  abbrev pub Can : Bool → Event R → Call R → Type ℓ
  Can can_dial e s = (t : Call R) × (step can_dial e s ≡ some t)

  end_post :
      (can_dial : Bool) (a : Bytes) (rest : List Bytes) (s : Call R)
      → s.posting ≡ a ∷ rest
      → s.crashed ≡ false
      → Can can_dial (failed a) s
  unfolding step move take_out
  end_post d a rest s h c = (give_up rest s, ground (arith, h, c, bytes_eq_refl a))

  -- A post that fails crashes nothing.
  still :
      (a : Bytes) (s t : Call R)
      → s.crashed ≡ false
      → step true (failed a) s ≡ some t
      → t.crashed ≡ false
  unfolding step move give_up
  still a s t c h = ground arith

  next_event :
      (n : ℕ) (s : Call R) (todo posting : List Bytes) (idle : ℕ)
      → s.todo ≡ todo
      → s.posting ≡ posting
      → s.idle ≡ idle
      → IsManned (suc n) s
      → is_over s ≡ false
      → s.crashed ≡ false
      → (e : Event R) × ((t : Call R) × (step true e s ≡ some t) × (t.crashed ≡ false))
        × (is_canceled (e ∷ []) ≡ false)
  unfolding is_over step move hand_over drop_one close_worker
  next_event n s todo (a ∷ posting) idle et ep ei m o c =
      let (t, r) = end_post true a posting s ep c in (failed a, (t, r, still a s t c r), refl)
  next_event n s [] [] zero et ep ei m o c = absurd (ground arith)
  next_event n s [] [] (suc idle) et ep ei m o c =
      (leave, (record s { idle = idle }, ground arith, c), refl)
  next_event n s (a ∷ todo) [] (suc idle) et ep ei m o c =
      (hand, (record s { todo = todo; idle = idle; posting = a ∷ [] }, ground arith, c), refl)
  next_event n s (a ∷ todo) [] zero et ep ei m o c = elim (Bool-cases s.done) [
    | inl e ↦ (skip, (record s { todo = todo }, ground arith, c), refl)
    | inr e ↦ absurd (ground arith)
  ]

  -- The call can go on without the caller until it is over.
  abbrev pub Completes : Call R → Type ℓ
  Completes s =
      (es : List (Event R)) × (t : Call R) × (run true es s ≡ some t)
      × (is_over t ≡ true)
      × (t.crashed ≡ false)
      × (is_canceled es ≡ false)

  canceled-cons :
      (e : Event R) (es : List (Event R))
      → is_canceled (e ∷ []) ≡ false
      → is_canceled es ≡ false
      → is_canceled (e ∷ es) ≡ false
  canceled-cons hand es h k = k
  canceled-cons skip es h k = k
  canceled-cons leave es h k = k
  canceled-cons cancel es h k = h
  canceled-cons (failed a) es h k = k
  canceled-cons (answered a r) es h k = k

  run-cons :
      (can_dial : Bool) (e : Event R) (es : List (Event R)) (s t u : Call R)
      → step can_dial e s ≡ some t
      → run can_dial es t ≡ some u
      → run can_dial (e ∷ es) s ≡ some u
  unfolding run Option.bind
  run-cons d e es s t u h k = ground (arith, h, k)

  at_rest : (s : Call R) → measure s ≤ 0 → is_over s ≡ true
  unfolding is_over
  at_rest s h = ground arith

  extend :
      (e : Event R) (s t : Call R)
      → step true e s ≡ some t
      → is_canceled (e ∷ []) ≡ false
      → Completes t
      → Completes s
  extend e s t h k (es, u, r, o, z, c) =
      (e ∷ es, u, run-cons true e es s t u h r, o, z, canceled-cons e es k c)

  completes :
      (n fuel : ℕ) (s : Call R)
      → IsManned (suc n) s
      → s.crashed ≡ false
      → measure s ≤ fuel
      → Completes s
  unfolding run
  completes n zero s m z h = ([], s, refl, at_rest s h, z, refl)
  completes n (suc fuel) s m z h = elim (Bool-cases (is_over s)) [
    | inl o ↦ ([], s, refl, o, z, refl)
    | inr o ↦
        let (e, (t, c, z'), k) = next_event n s s.todo s.posting s.idle refl refl refl m o z in
        extend e s t c k (
          completes n fuel t (step-IsManned (suc n) e s t m c) z'
            (omega (arith, step-measure true e s t c, h)))
  ]

-- Every run of `RPCCall` is finite: it takes at most three steps for a server, one for a worker, and
-- one for the caller's context.
pub call_ends {ℓ} :
    {R : Type ℓ} (can_dial : Bool) (x : R) (concurrency : ℤ) (servers : List Bytes)
    (es : List (Event R)) (t : Call R)
    → run can_dial es (start x concurrency servers) ≡ some t
    → length es ≤ 3 * length servers + worker_count concurrency servers + 1
unfolding start
call_ends d x c servers es t h = omega (arith, run-measure d es (start x c servers) t h)

-- If there is at least one worker, and the config has a dial function, `RPCCall` is never stuck: however
-- far a call has come, if no body `null` has made a worker panic, it can go on, without the caller's
-- context being done, until the loop and all of the workers have ended.
pub call-Completes {ℓ} :
    {R : Type ℓ} (x : R) (concurrency : ℤ) (servers : List Bytes) (es : List (Event R)) (t : Call R)
    → 0 < worker_count concurrency servers
    → run true es (start x concurrency servers) ≡ some t
    → t.crashed ≡ false
    → Completes t
unfolding start
call-Completes x c servers es t w h z =
    let n = worker_count c servers - 1 in
    let e : worker_count c servers ≡ suc n = omega (arith, w) in
    completes n (measure t) t
      (run-IsManned (suc n) es (start x c servers) t (λ p q k. ground (arith, e)) h) z (omega arith)

-- With a negative concurrency and a server to ask, `RPCCall` has no step to take but that the caller's
-- context is done, and is not over: without that it never returns.
pub call_stuck {ℓ} :
    {R : Type ℓ} (can_dial : Bool) (x : R) (n : ℕ) (a : Bytes) (servers : List Bytes)
    (es : List (Event R)) (t : Call R)
    → run can_dial es (start x (negsuc n) (a ∷ servers)) ≡ some t
    → is_canceled es ≡ false
    → (es ≡ []) × (is_over t ≡ false)
unfolding Option.bind start run step move hand_over drop_one close_worker take_out worker_count
    is_over
call_stuck d x n a servers [] t h c = (refl, ground arith)
call_stuck d x n a servers (hand ∷ es) t h c = cc
call_stuck d x n a servers (skip ∷ es) t h c = cc
call_stuck d x n a servers (leave ∷ es) t h c = cc
call_stuck d x n a servers (cancel ∷ es) t h c = cc
call_stuck d x n a servers (failed b ∷ es) t h c = cc
call_stuck d x n a servers (answered b r ∷ es) t h c = cc
