-- ===== src/NanoPay/Claimer/Total.antt =====
-- nanopay.go: what `Claim` does to the total amount of the claimer.
use nkn_sdk_go.Base.{
  ℕ, ◌≡◌, refl, sym, ◌∙◌, subst, Bool, true, false, Option, some, none, ◌==◌, Bool-cases, inl, inr,
}
use nkn_sdk_go.Base.Int.{ℤ, pos, ◌+ℤ◌, ◌≤ℤ◌, leb_ℤ, IsInt64, wrap_i64_lem, to_u32, int_laws}
use nkn_sdk_go.Base.Bytes.{Bytes}
use nkn_sdk_go.Errors.{ok-injective, Error, nano_pay_closed, Outcome, ok, err, panic}
use nkn_sdk_go.Action.{Action, raise_if, continue, ◌>>=◌, >>=-eq-ok}
use nkn_sdk_go.NanoPay.{Blockchain, NanoPayData}
use nkn_sdk_go.NanoPay.Claimer.{
  Claimer, on_world, or_close, close_if, flush, flush_tx, amount_of, close_on_error, leave_channel,
  switch_when, switch_from, switch_channel, admit, accept, claim, skips, flush_any, admit_valid,
}
use nkn_sdk_go.NanoPay.Claimer.Accepted.{IsUpdate, admit_ok}
use nkn_sdk_go.NanoPay.Checks.{validate, nano_pay_of, check_funds}

module _ {W : Type 0} (chain : Blockchain W) where
  open chain use {Tx}

  -- The total amount is `t`, and there is no amount without a channel.
  pub record Holds (t : ℤ) (c : Claimer chain) : Type 0 where
    pub total : c.prev_claimed_amount +ℤ c.amount ≡ t
    pub no_channel : c.id ≡ none → c.amount ≡ pos 0

  -- An action that leaves the total as it is, however it ends.
  abbrev pub Keeps : {A : Type 0} → Action (Claimer chain) A → Type 0
  Keeps m = (t : ℤ) (c : Claimer chain) → IsInt64 t → Holds t c → Holds t (m c).1

  Keeps-continue :
      {A B : Type 0} (t : ℤ) (r : Outcome A × Claimer chain) (f : A → Action (Claimer chain) B)
      → IsInt64 t
      → Holds t r.1
      → ((a : A) → Keeps (f a))
      → Holds t (continue r f).1
  Keeps-continue t (ok a, c) f b h k = k a t c b h
  Keeps-continue t (err e, c) f b h k = h
  Keeps-continue t (panic, c) f b h k = h

  Keeps->>= :
      {A B : Type 0} (m : Action (Claimer chain) A) (f : A → Action (Claimer chain) B)
      → Keeps m
      → ((a : A) → Keeps (f a))
      → Keeps (m >>= f)
  Keeps->>= m f km kf t c b h = Keeps-continue t (m c) f b (km t c b h) kf

  on_world-Keeps : {A : Type 0} (m : Action W A) → Keeps (on_world chain m)
  on_world-Keeps m t c b h = record { total = h.total; no_channel = h.no_channel }

  or_close-Keeps : {A : Type 0} (o : Outcome A) → Keeps (or_close chain o)
  or_close-Keeps (ok a) t c b h = h
  or_close-Keeps (err e) t c b h = record { total = h.total; no_channel = h.no_channel }
  or_close-Keeps panic t c b h = h

  close_if-Keeps : (x : Bool) (e : Error) → Keeps (close_if chain x e)
  close_if-Keeps true e t c b h = record { total = h.total; no_channel = h.no_channel }
  close_if-Keeps false e t c b h = h

  flush_tx-Keeps : (x : Tx) → Keeps (flush_tx chain x)
  unfolding flush_tx
  flush_tx-Keeps x =
      Keeps->>= (or_close chain (nano_pay_of chain (chain.unpack x))) _ (or_close-Keeps _) λ p.
        Keeps->>= (on_world chain (chain.send_raw x)) _ (on_world-Keeps (chain.send_raw x))
          λ h t c b k. record { total = k.total; no_channel = k.no_channel }

  flush_any-Keeps : (o : Option Tx) → Keeps (flush_any chain o)
  unfolding flush_any
  flush_any-Keeps none t c b h = h
  flush_any-Keeps (some x) t c b h = flush_tx-Keeps x t c b h

  pub flush-Keeps : (force : Bool) → Keeps (flush chain force)
  unfolding flush
  flush-Keeps force t c b h = elim (Bool-cases (skips chain force c)) [
    | inl e ↦ rw e h
    | inr e ↦ rw e (flush_any-Keeps c.tx t c b h)
  ]

  close_on_error-Keeps :
      (t : ℤ) (r : Outcome (Unit {0}) × Claimer chain)
      → Holds t r.1
      → Holds t (close_on_error chain r).1
  unfolding close_on_error
  close_on_error-Keeps t (ok u, c) h = h
  close_on_error-Keeps t (err e, c) h = record { total = h.total; no_channel = h.no_channel }
  close_on_error-Keeps t (panic, c) h = h

  add_zero : (a : ℤ) → a +ℤ pos 0 ≡ a
  add_zero a = grind int_laws

  pub leave_channel-Holds :
      (t : ℤ) (c : Claimer chain) → IsInt64 t → Holds t c → Holds t (leave_channel chain c)
  unfolding leave_channel
  leave_channel-Holds t c b h = record {
    total =
        rw (wrap_i64_lem (c.prev_claimed_amount +ℤ c.amount) (rw h.total b))
          (add_zero (c.prev_claimed_amount +ℤ c.amount) ∙ h.total);
    no_channel = λ e. refl;
  }

  pub leave_channel_amount : (c : Claimer chain) → (leave_channel chain c).amount ≡ pos 0
  unfolding leave_channel
  leave_channel_amount c = refl

  switch_when-Keeps : (x : Bool) (p : NanoPayData) → Keeps (switch_when chain x p)
  unfolding switch_when
  switch_when-Keeps true p t c b h = close_if-Keeps (leb_ℤ p.amount c.amount) _ t c b h
  switch_when-Keeps false p t c b h =
      Keeps->>= (λ s. close_on_error chain (flush chain false s)) _
        (λ t' c' b' h'. close_on_error-Keeps t' _ (flush-Keeps false t' c' b' h'))
        (λ a t' c' b' h'. leave_channel-Holds t' c' b' h') t c b h

  switch_from-Keeps : (o : Option ℕ) (p : NanoPayData) → Keeps (switch_from chain o p)
  unfolding switch_from
  switch_from-Keeps none p t c b h = h
  switch_from-Keeps (some i) p t c b h = switch_when-Keeps (i == p.id) p t c b h

  raise_if-Keeps : (x : Bool) (e : Error) → Keeps (raise_if x e)
  raise_if-Keeps true e t c b h = h
  raise_if-Keeps false e t c b h = h

  admit_valid-Keeps : (x : Tx) (n : ℕ) (v : NanoPayData × Bytes) → Keeps (admit_valid chain x n v)
  unfolding admit_valid switch_channel
  admit_valid-Keeps x n (p, address) t c b h =
      Keeps->>= (raise_if c.closed nano_pay_closed) _ (raise_if-Keeps c.closed _)
        (λ _.
          Keeps->>= (switch_channel chain p) _ (λ t1 c1. switch_from-Keeps c1.id p t1 c1)
            λ _.
              Keeps->>= (on_world chain (chain.balance address)) _
                (on_world-Keeps (chain.balance address))
                λ a t2 c2.
                  Keeps->>= (or_close chain (check_funds chain x n p a c2.prev_flush_amount)) _
                    (or_close-Keeps _) (λ u t3 c3 b3 h3. h3) t2 c2)
        t c b h

  admit-Keeps : (x : Tx) → Keeps (admit chain x)
  unfolding admit
  admit-Keeps x =
      Keeps->>= (on_world chain chain.get_height) _ (on_world-Keeps chain.get_height)
        λ height t c b h.
          Keeps->>= (or_close chain (validate chain x (to_u32 height) c.recipient_hash)) _
            (or_close-Keeps _) (admit_valid-Keeps x (to_u32 height)) t c b h

  refused :
      {A B : Type 0} (r : Outcome A × Claimer chain) (g : A → Claimer chain → Claimer chain)
      (f : Claimer chain → B) (e : Error) (c' : Claimer chain)
      → continue r (λ p c. (ok (f (g p c)), g p c)) ≡ (err e, c')
      → r.1 ≡ c'
  refused (ok p, c) g f e c' h = cc
  refused (err x, c) g f e c' h = λ i. (h i).1
  refused (panic, c) g f e c' h = λ i. (h i).1

  -- A transaction that is refused leaves the total as it was, whether or not the claimer is closed and
  -- the previous channel left.
  pub claim_refused :
      (t : ℤ) (x : Tx) (c c' : Claimer chain) (e : Error)
      → IsInt64 t
      → Holds t c
      → claim chain x c ≡ (err e, c')
      → Holds t c'
  unfolding claim
  claim_refused t x c c' e b h eq =
      subst (λ s. Holds t s) (refused (admit chain x c) (accept chain x) (amount_of chain) e c' eq)
        (admit-Keeps x t c b h)

  raised :
      (t : ℤ) (p : NanoPayData) (c : Claimer chain)
      → Holds t c
      → pos 0 ≤ℤ p.amount
      → IsUpdate chain p c
      → t ≤ℤ (c.prev_claimed_amount +ℤ p.amount)
  raised t p c k n (inl e) = let z = k.no_channel e in let s = k.total in grind int_laws
  raised t p c k n (inr (e, l)) = let s = k.total in grind int_laws

  accepted :
      (t a : ℤ) (x : Tx) (p : NanoPayData) (c c' : Claimer chain)
      → Holds t c
      → pos 0 ≤ℤ p.amount
      → IsUpdate chain p c
      → accept chain x p c ≡ c'
      → amount_of chain (accept chain x p c) ≡ a
      → IsInt64 (c'.prev_claimed_amount +ℤ c'.amount)
      → (t ≤ℤ a) × Holds a c'
  unfolding accept amount_of
  accepted t a x p c c' k n u e ea b =
      let b2 : IsInt64 (c.prev_claimed_amount +ℤ p.amount) =
        subst (λ s. IsInt64 (s.prev_claimed_amount +ℤ s.amount)) (sym e) b in
      let s : c.prev_claimed_amount +ℤ p.amount ≡ a =
        sym (wrap_i64_lem (c.prev_claimed_amount +ℤ p.amount) b2) ∙ ea in
      (
        subst (λ z. t ≤ℤ z) s (raised t p c k n u),
        subst (λ z. Holds a z) e (record { total = s; no_channel = λ q. cc }),
      )

  -- A transaction that is accepted never lowers the total, which is what the call returns, if that
  -- has no overflow.
  pub claim_accepted :
      (t a : ℤ) (x : Tx) (c c' : Claimer chain)
      → IsInt64 t
      → Holds t c
      → claim chain x c ≡ (ok a, c')
      → IsInt64 (c'.prev_claimed_amount +ℤ c'.amount)
      → (t ≤ℤ a) × Holds a c'
  unfolding claim
  claim_accepted t a x c c' b h eq b' =
      let (p, c1, e1, e2) = >>=-eq-ok (admit chain x) _ c eq in
      let k : Holds t c1 = subst (λ s. Holds t s) (λ i. (e1 i).1) (admit-Keeps x t c b h) in
      let (nonneg, update) = admit_ok chain x c c1 p e1 in
      accepted t a x p c1 c' k nonneg update (λ i. (e2 i).1) (ok-injective (λ i. (e2 i).0)) b'
