-- ===== src/Rpc/Call/Servers.antt =====
-- rpc.go: which servers `RPCCall` has asked when it gives up.
use nkn_sdk_go.Base.{
  ◌≡◌, refl, sym, ◌∙◌, Bool, true, false, ◌||◌, Option, none, some, List, [], ◌∷◌, ◌⊎◌, inl, inr,
  Bool-cases, arith,
}
use nkn_sdk_go.Base.Int.{ℤ}
use nkn_sdk_go.Base.Bytes.{Bytes, bytes_eq, bytes_eq_iff}
use nkn_sdk_go.Rpc.Call.{
  null_body, undecodable, decodable, move, Call, Event, hand, skip, failed, answered, leave, cancel,
  start, keep, take_out, hand_over, drop_one, give_up, deliver, close_worker, step, run, is_over,
}
use nkn_sdk_go.Rpc.Call.Verdict.{
  bind-eq-some, map-eq-some, is_canceled, first_answer, has_null, run-Agrees,
}
use nkn_sdk_go.Rpc.Call.Progress.{moved}

abbrev pub contains : Bytes → List Bytes → Bool
contains a [] = false
contains a (b ∷ bs) = bytes_eq b a || contains a bs

-- The post to the address failed, or its body did not decode.
abbrev pub has_failed {ℓ} : {R : Type ℓ} → Bytes → List (Event R) → Bool
has_failed a [] = false
has_failed a (failed b ∷ es) = bytes_eq b a || has_failed a es
has_failed a (answered b (undecodable f) ∷ es) = bytes_eq b a || has_failed a es
has_failed a (answered b null_body ∷ es) = has_failed a es
has_failed a (answered b (decodable z f) ∷ es) = has_failed a es
has_failed a (hand ∷ es) = has_failed a es
has_failed a (skip ∷ es) = has_failed a es
has_failed a (leave ∷ es) = has_failed a es
has_failed a (cancel ∷ es) = has_failed a es

-- A body has decoded.
abbrev pub is_answered {ℓ} : {R : Type ℓ} → List (Event R) → Bool
is_answered [] = false
is_answered (answered a (decodable z f) ∷ es) = true
is_answered (answered a (undecodable f) ∷ es) = is_answered es
is_answered (answered a null_body ∷ es) = is_answered es
is_answered (hand ∷ es) = is_answered es
is_answered (skip ∷ es) = is_answered es
is_answered (leave ∷ es) = is_answered es
is_answered (cancel ∷ es) = is_answered es
is_answered (failed a ∷ es) = is_answered es

contains-keep :
    (a b : Bytes) (o : Option (List Bytes)) (cs : List Bytes)
    → keep b o ≡ some cs
    → (bs : List Bytes) × (o ≡ some bs) × (cs ≡ b ∷ bs)
unfolding keep
contains-keep a b none cs h = cc
contains-keep a b (some bs) cs h = (bs, refl, ground arith)

-- A post that is over was to the address, or those to it go on.
contains-take_out :
    (a b : Bytes) (bs cs : List Bytes)
    → take_out b bs ≡ some cs
    → contains a bs ≡ true
    → (bytes_eq b a ≡ true) ⊎ (contains a cs ≡ true)
unfolding take_out
contains-take_out a b [] cs h k = cc
contains-take_out a b (d ∷ bs) cs h k = elim (Bool-cases (bytes_eq b d)) [
  | inl e ↦ ground (arith, e, bytes_eq_iff b d, bytes_eq_iff d a, bytes_eq_iff b a)
  | inr e ↦
      let (ds, q, n) = contains-keep a d (take_out b bs) cs (ground (arith, e)) in
      ground (arith, n, contains-take_out a b bs ds q)
]

module _ {ℓ} {R : Type ℓ} where
  abbrev is_pending : Bytes → Call R → Bool
  is_pending a s = contains a s.todo || contains a s.posting

  step-pending :
      (a : Bytes) (e : Event R) (s t : Call R)
      → step true e s ≡ some t
      → is_canceled (e ∷ []) ≡ false
      → is_answered (e ∷ []) ≡ false
      → has_null (e ∷ []) ≡ false
      → s.done ≡ false
      → (t.done ≡ false)
        × (is_pending a s ≡ true → (has_failed a (e ∷ []) ≡ true) ⊎ (is_pending a t ≡ true))
  unfolding step move hand_over drop_one give_up deliver close_worker
  step-pending a hand s t h c f k d = ground arith
  step-pending a skip s t h c f k d = ground arith
  step-pending a (failed b) s t h c f k d =
      let (running, h') = moved true (failed b) s t h in
      let (bs, o, e) =
        map-eq-some {A = List Bytes} (λ bs. give_up bs s) (take_out b s.posting) h' in
      ground (arith, contains-take_out a b s.posting bs o, e)
  step-pending a (answered b (undecodable g)) s t h c f k d =
      let (running, h') = moved true (answered b (undecodable g)) s t h in
      let (bs, o, e) =
        map-eq-some {A = List Bytes} (λ bs. deliver bs (undecodable g) s) (take_out b s.posting)
          h' in
      ground (arith, contains-take_out a b s.posting bs o, e)
  step-pending a (answered b null_body) s t h c f k d = cc
  step-pending a (answered b (decodable z g)) s t h c f k d = cc
  step-pending a leave s t h c f k d = ground arith
  step-pending a cancel s t h c f k d = cc

  -- What holds of all events holds of the first and of the others.
  quiet-cons :
      (e : Event R) (es : List (Event R))
      → is_canceled (e ∷ es) ≡ false
      → is_answered (e ∷ es) ≡ false
      → has_null (e ∷ es) ≡ false
      → ((is_canceled (e ∷ []) ≡ false)
          × (is_answered (e ∷ []) ≡ false)
          × (has_null (e ∷ []) ≡ false))
        × ((is_canceled es ≡ false) × (is_answered es ≡ false) × (has_null es ≡ false))
  quiet-cons hand es c f k = ((refl, refl, refl), (c, f, k))
  quiet-cons skip es c f k = ((refl, refl, refl), (c, f, k))
  quiet-cons leave es c f k = ((refl, refl, refl), (c, f, k))
  quiet-cons cancel es c f k = cc
  quiet-cons (failed a) es c f k = ((refl, refl, refl), (c, f, k))
  quiet-cons (answered a (undecodable g)) es c f k = ((refl, refl, refl), (c, f, k))
  quiet-cons (answered a null_body) es c f k = cc
  quiet-cons (answered a (decodable z g)) es c f k = cc

  no_answer : (x : R) (es : List (Event R)) → first_answer x es ≡ none → is_answered es ≡ false
  no_answer x [] h = refl
  no_answer x (hand ∷ es) h = no_answer x es h
  no_answer x (skip ∷ es) h = no_answer x es h
  no_answer x (leave ∷ es) h = no_answer x es h
  no_answer x (cancel ∷ es) h = no_answer x es h
  no_answer x (failed a ∷ es) h = no_answer x es h
  no_answer x (answered a (undecodable g) ∷ es) h = no_answer (g x) es h
  no_answer x (answered a null_body ∷ es) h = no_answer x es h
  no_answer x (answered a (decodable z g) ∷ es) h = cc

  failed-cons :
      (a : Bytes) (e : Event R) (es : List (Event R))
      → has_failed a (e ∷ es) ≡ (has_failed a (e ∷ []) || has_failed a es)
  failed-cons a hand es = refl
  failed-cons a skip es = refl
  failed-cons a leave es = refl
  failed-cons a cancel es = refl
  failed-cons a (failed b) es = ground arith
  failed-cons a (answered b (undecodable g)) es = ground arith
  failed-cons a (answered b null_body) es = refl
  failed-cons a (answered b (decodable z g)) es = refl

  run-pending :
      (a : Bytes) (es : List (Event R)) (s t : Call R)
      → run true es s ≡ some t
      → is_canceled es ≡ false
      → is_answered es ≡ false
      → has_null es ≡ false
      → s.done ≡ false
      → is_pending a s ≡ true
      → (has_failed a es ≡ true) ⊎ (is_pending a t ≡ true)
  unfolding run
  run-pending a [] s t h c f k d p = inr (ground arith)
  run-pending a (e ∷ es) s t h c f k d p =
      let (u, first, rest) = bind-eq-some (step true e s) (run true es) h in
      let ((c1, f1, k1), (cs, fs, ks)) = quiet-cons e es c f k in
      let (ud, q) = step-pending a e s u first c1 f1 k1 d in
      ground (arith, failed-cons a e es, q p, run-pending a es u t rest cs fs ks ud)

over_empty : {R : Type 0} (a : Bytes) (t : Call R) → is_over t ≡ true → is_pending a t ≡ false
unfolding is_over
over_empty a t h = ground arith

-- When `RPCCall` with a dial function is over, no worker has panicked, the caller's context is not done,
-- and no answer was got, which is when it returns the network error, it has posted the request to each of
-- the servers, and each post failed or came back with a body that does not decode.
pub call_asks_all :
    {R : Type 0} (x : R) (concurrency : ℤ) (servers : List Bytes) (es : List (Event R)) (t : Call R)
    → run true es (start x concurrency servers) ≡ some t
    → is_over t ≡ true
    → t.crashed ≡ false
    → t.parent_done ≡ false
    → t.response ≡ none
    → (a : Bytes) → contains a servers ≡ true
    → has_failed a es ≡ true
unfolding start
call_asks_all x n servers es t h o k c f a m =
    let (p, z, r) = run-Agrees true es (start x n servers) t (λ e. (refl, refl)) h in
    ground (
      arith,
      over_empty a t o,
      run-pending a es (start x n servers) t h (sym p ∙ c) (no_answer x es (sym (r c k) ∙ f))
          (sym z ∙ k) refl (ground (arith, m)),
    )
