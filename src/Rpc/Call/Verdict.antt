-- ===== src/Rpc/Call/Verdict.antt =====
-- rpc.go: what a run of `RPCCall` returns, told from its events alone.
use nkn_sdk_go.Base.{
  ◌≡◌, refl, Bool, true, false, ◌||◌, Option, none, some, List, [], ◌∷◌, if◌then◌else◌, arith,
}
use mathlib.Core.Option
use nkn_sdk_go.Base.Bytes.{Bytes}
use nkn_sdk_go.Errors.{Outcome}
use nkn_sdk_go.Rpc.Call.{
  Reply, to_reply, null_body, undecodable, decodable, Call, Event, move, hand, skip, failed,
  answered, leave, cancel, hand_over, drop_one, give_up, deliver, close_worker, step, run, outcome,
}

pub bind-eq-some {ℓ} :
    {A B : Type ℓ} (o : Option A) (f : A → Option B) {b : B}
    → Option.bind o f ≡ some b
    → (a : A) × (o ≡ some a) × (f a ≡ some b)
unfolding Option.bind
bind-eq-some none f h = cc
bind-eq-some (some a) f h = (a, refl, h)

pub map-eq-some {ℓ κ} :
    {A : Type ℓ} {B : Type κ} (f : A → B) (o : Option A) {b : B}
    → Option.map f o ≡ some b
    → (a : A) × (o ≡ some a) × (f a ≡ b)
map-eq-some f none h = cc
map-eq-some f (some a) h = (a, refl, ground arith)

module _ {ℓ} {R : Type ℓ} where
  -- The caller's context was done at some time.
  abbrev pub is_canceled : List (Event R) → Bool
  is_canceled [] = false
  is_canceled (cancel ∷ es) = true
  is_canceled (hand ∷ es) = is_canceled es
  is_canceled (skip ∷ es) = is_canceled es
  is_canceled (leave ∷ es) = is_canceled es
  is_canceled (failed a ∷ es) = is_canceled es
  is_canceled (answered a r ∷ es) = is_canceled es

  -- The first body that decodes, with `result` as the bodies before have left it.
  abbrev pub first_answer : R → List (Event R) → Option (Reply R)
  first_answer x [] = none
  first_answer x (answered a (decodable e f) ∷ es) = some (to_reply e (f x))
  first_answer x (answered a (undecodable f) ∷ es) = first_answer (f x) es
  first_answer x (answered a null_body ∷ es) = first_answer x es
  first_answer x (hand ∷ es) = first_answer x es
  first_answer x (skip ∷ es) = first_answer x es
  first_answer x (leave ∷ es) = first_answer x es
  first_answer x (cancel ∷ es) = first_answer x es
  first_answer x (failed a ∷ es) = first_answer x es

  -- A body `null` came before an answer and before the caller's context was done.
  abbrev pub has_null : List (Event R) → Bool
  has_null [] = false
  has_null (answered a (decodable e f) ∷ es) = false
  has_null (answered a (undecodable f) ∷ es) = has_null es
  has_null (answered a null_body ∷ es) = true
  has_null (hand ∷ es) = has_null es
  has_null (skip ∷ es) = has_null es
  has_null (leave ∷ es) = has_null es
  has_null (cancel ∷ es) = false
  has_null (failed a ∷ es) = has_null es

  -- The context is done for no other reason than an answer or the caller.
  abbrev pub IsValid : Call R → Type ℓ
  IsValid s = (s.done ≡ false → (s.response ≡ none) × (s.parent_done ≡ false))

  -- What the rest of a run can still change.
  abbrev pub expected : Call R → List (Event R) → Option (Reply R)
  expected s es = if s.done then s.response else first_answer s.result es

  abbrev pub crashes : Call R → List (Event R) → Bool
  crashes s es = s.crashed || (if s.done then false else has_null es)

  abbrev pub Agrees : Bool → List (Event R) → Call R → Call R → Type ℓ
  Agrees p es s t =
      (t.parent_done ≡ (s.parent_done || p))
      × (t.crashed ≡ crashes s es)
      × (t.parent_done ≡ false → t.crashed ≡ false → t.response ≡ expected s es)

  step-IsValid :
      (can_dial : Bool) (e : Event R) (s : Call R) {t : Call R}
      → IsValid s
      → step can_dial e s ≡ some t
      → IsValid t
  unfolding step move hand_over drop_one give_up deliver close_worker
  step-IsValid d hand s v h = ground arith
  step-IsValid d skip s v h = ground arith
  step-IsValid d (failed a) s v h = ground arith
  step-IsValid d (answered a null_body) s v h = ground arith
  step-IsValid d (answered a (undecodable f)) s v h = ground arith
  step-IsValid d (answered a (decodable e f)) s v h = ground arith
  step-IsValid d leave s v h = ground arith
  step-IsValid d cancel s v h = ground arith

  head-Agrees :
      (can_dial : Bool) (e : Event R) (s : Call R) (t u : Call R) (es : List (Event R))
      → IsValid s
      → step can_dial e s ≡ some t
      → Agrees (is_canceled es) es t u
      → Agrees (is_canceled (e ∷ es)) (e ∷ es) s u
  unfolding step move hand_over drop_one give_up deliver close_worker
  head-Agrees d hand s t u es v h r = ground arith
  head-Agrees d skip s t u es v h r = ground arith
  head-Agrees d (failed a) s t u es v h r = ground arith
  head-Agrees d (answered a null_body) s t u es v h q = ground arith
  head-Agrees d (answered a (undecodable f)) s t u es v h q = ground arith
  head-Agrees d (answered a (decodable e f)) s t u es v h q = ground arith
  head-Agrees d leave s t u es v h r = ground arith
  head-Agrees d cancel s t u es v h r = ground arith

  pub run-Agrees :
      (can_dial : Bool) (es : List (Event R)) (s t : Call R)
      → IsValid s
      → run can_dial es s ≡ some t
      → Agrees (is_canceled es) es s t
  unfolding run
  run-Agrees d [] s t v h = ground arith
  run-Agrees d (e ∷ es) s t v h =
      let (m, first, rest) = bind-eq-some (step d e s) (run d es) h in
      head-Agrees d e s m t es v first (run-Agrees d es m t (step-IsValid d e s v first) rest)

-- What the call returns by its events: it panics by a body `null` that comes before an answer and before
-- the context is done; else it is the error of the context if that was ever done, else what the first body
-- says that decodes, else the network error.
unfoldable pub verdict {ℓ} : {R : Type ℓ} → R → List (Event R) → Outcome R
verdict x es = outcome (has_null es) (is_canceled es) (first_answer x es)
