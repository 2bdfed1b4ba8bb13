-- ===== src/Channel/Fifo.antt =====
-- util.go: an emitter without a callback is a bounded queue, oldest first, that drops what comes
-- when it is full; with a callback it never buffers.
use nkn_sdk_go.Base.{
  ℕ, zero, suc, ◌+◌, ◌≤◌, ◌≡◌, refl, ap, ◌∙◌, sym, true, false, List, [], ◌∷◌, ◌++◌, length, take,
  replicate, map, arith, length-append, append-nil, append_assoc, ltb, if◌then◌else◌, Bool-cases,
  inl, inr, ltb→lt,
}
use nkn_sdk_go.Errors.{Outcome, ok, panic, ◌>>=◌}
use nkn_sdk_go.Channel.{
  Emitter, Received, value, nil_value, new_emitter, receive, maybe_next, next, close,
}

module _ {ℓ} {A : Type ℓ} where
  -- The sends of several values, in order.
  pub receive_all : Emitter A → List A → Outcome (Emitter A)
  receive_all c [] = ok c
  receive_all c (x ∷ xs) = receive c x >>= λ c'. receive_all c' xs

  -- `n` calls of `MaybeNext`.
  pub drain : ℕ → Emitter A → List (Received A)
  drain zero c = []
  drain (suc n) c = let (r, c') = maybe_next c in r ∷ drain n c'

  take-full : (n : ℕ) (xs ys : List A) → n ≤ length xs → take n (xs ++ ys) ≡ take n xs
  take-full zero xs ys h = refl
  take-full (suc n) [] ys h = absurd (omega arith)
  take-full (suc n) (x ∷ xs) ys h = ap (◌∷◌ x) (take-full n xs ys (omega arith))

  take-all : (n : ℕ) (xs : List A) → length xs ≤ n → take n xs ≡ xs
  take-all zero [] h = refl
  take-all zero (x ∷ xs) h = absurd (omega arith)
  take-all (suc n) [] h = refl
  take-all (suc n) (x ∷ xs) h = ap (◌∷◌ x) (take-all n xs (omega arith))

  abbrev holding : ℕ → List A → Emitter A
  holding n xs = record { buffer = xs; size = n; closed = false; has_callback = false; called = [] }

  receive_all-holding :
      (n : ℕ) (xs ys : List A)
      → length xs ≤ n
      → receive_all (holding n xs) ys ≡ ok (holding n (take n (xs ++ ys)))
  unfolding receive_all receive
  receive_all-holding n xs [] h = rw (append-nil xs, take-all n xs h)
  receive_all-holding n xs (y ∷ ys) h = elim (Bool-cases (ltb (length xs) n)) [
    | inl room ↦ rw room (
        rw (append_assoc xs (y ∷ []) ys) at (
          receive_all-holding n (xs ++ y ∷ []) ys
            (omega (arith, ltb→lt _ _ room, length-append xs (y ∷ [])))))
    | inr full ↦ rw full (
        receive_all-holding n xs ys h
        ∙ ap (λ zs. ok (holding n zs))
            (take-full n xs ys (ground arith) ∙ sym (take-full n xs (y ∷ ys) (ground arith))))
  ]

  drain-empty : (n k : ℕ) → drain k (holding n []) ≡ replicate k nil_value
  unfolding drain maybe_next
  drain-empty n zero = refl
  drain-empty n (suc k) = ap (◌∷◌ nil_value) (drain-empty n k)

  drain-holding :
      (n m : ℕ) (xs : List A) (k : ℕ)
      → m ≡ length xs + k
      → drain m (holding n xs) ≡ map value xs ++ replicate k nil_value
  unfolding drain maybe_next
  drain-holding n m [] k e = let e' : m ≡ k = omega arith in rw e' (drain-empty n k)
  drain-holding n zero (x ∷ xs) k e = absurd (omega arith)
  drain-holding n (suc m) (x ∷ xs) k e = ap (◌∷◌ (value x)) (drain-holding n m xs k (omega arith))

  -- Of the values sent to a new emitter with no callback, the first `size` are kept and the rest
  -- dropped, with no panic; `MaybeNext` then gives the kept ones in the order of the sends, and nil
  -- from then on.
  pub receive_all-drain :
      (size k : ℕ) (xs : List A)
      → (c : Emitter A) × (receive_all (new_emitter size false) xs ≡ ok c)
        × (drain (length (take size xs) + k) c ≡ map value (take size xs) ++ replicate k nil_value)
  unfolding new_emitter
  receive_all-drain size k xs = (
    holding size (take size xs),
    receive_all-holding size [] xs (omega arith),
    drain-holding size _ (take size xs) k refl,
  )

  -- Whatever is sent, an emitter that is closed and has no callback panics, so a late event after
  -- `Close` is a run-time panic.
  pub receive-close :
      (c d : Emitter A) (x : A)
      → c.has_callback ≡ false
      → close c ≡ ok d
      → (receive d x ≡ panic) × (close d ≡ panic)
  unfolding close receive
  receive-close c d x cb h = ground arith

  -- On an emitter that is open a send succeeds and leaves it open.
  pub receive_open :
      (c : Emitter A) (x : A)
      → c.closed ≡ false
      → (d : Emitter A) × (receive c x ≡ ok d) × (d.closed ≡ false)
  unfolding receive
  receive_open c x h = (
    if c.has_callback
        then record c { called = c.called ++ x ∷ [] }
        else if ltb (length c.buffer) c.size
        then record c { buffer = c.buffer ++ x ∷ [] }
        else c,
    ground arith,
    ground arith,
  )

  -- Where there is room and no callback, a value is kept behind the others.
  pub receive_kept :
      (c : Emitter A) (x : A)
      → c.closed ≡ false
      → c.has_callback ≡ false
      → ltb (length c.buffer) c.size ≡ true
      → receive c x ≡ ok (record c { buffer = c.buffer ++ x ∷ [] })
  unfolding receive
  receive_kept c x open_ cb room = rw (cb, open_, room) refl

  pub close_open : (c : Emitter A) → c.closed ≡ false → (close c ≡ ok (record c { closed = true }))
  unfolding close
  close_open c h = ground arith

  -- A receive does not close the channel.
  pub next-closed : (c : Emitter A) → (next c).1.closed ≡ c.closed
  unfolding next
  next-closed c = ground arith
