-- ===== src/Client/Connect/Retries.antt =====
-- client.go: how often `connect` tries, and how long it waits.
use native.Mathlib.Nat.{mul-le-mul_left, mul-le-mul_right, one-le-pow, pow-succ', mul_assoc}
use nkn_sdk_go.Base.{
  ℕ, leb, ◌≤◌, ◌<◌, subst, Bool-cases, inl, inr, zero, suc, ◌+◌, ◌*◌, ◌^◌, ◌≡◌, refl, sym, ap, ◌∙◌,
  min, Bool, true, false, Option, some, arith, if◌then◌else◌,
}
use nkn_sdk_go.Errors.{Error, Outcome, ok, err, panic, connect_failed}
use nkn_sdk_go.Client.Connect.{
  RetryConfig, next_interval, Dialing, Round, connected, again, attempt, next_round, connect_rounds,
}

leb-false : (a b : ℕ) → leb a b ≡ false → b < a
leb-false a b h = ground (arith, h)

min_left : (a m : ℕ) → leb a m ≡ true → min a m ≡ a
min_left a m h = ground (arith, h)

min_right : (a m : ℕ) → leb a m ≡ false → min a m ≡ m
min_right a m h = ground (arith, h)

one_le_pow : (n : ℕ) → 1 ≤ 2 ^ n
one_le_pow n = one-le-pow n 2 (omega arith)

-- The interval after `n` waits.
abbrev pub interval_after : RetryConfig → ℕ → ℕ → ℕ
interval_after cfg zero interval = interval
interval_after cfg (suc n) interval = interval_after cfg n (next_interval cfg interval)

next_interval-min :
    (cfg : RetryConfig) (i : ℕ) → next_interval cfg i ≡ min (i * 2) cfg.max_reconnect_interval
next_interval-min cfg i = ground arith

capped : (a m p : ℕ) → 1 ≤ p → min (min a m * p) m ≡ min (a * p) m
capped a m p h = elim (Bool-cases (leb a m)) [
  | inl e ↦ ap (λ k. min (k * p) m) (min_left a m e)
  | inr e ↦
      let k : m * 1 ≤ m * p = mul-le-mul_left m h in
      let l : m * p ≤ a * p = mul-le-mul_right p (omega (arith, leb-false a m e)) in
      ap (λ k. min (k * p) m) (min_right a m e) ∙ ground (arith, k, l)
]

-- The intervals double from the least one on, up to the greatest one.
pub interval_after_lem :
    (cfg : RetryConfig) (n i : ℕ)
    → interval_after cfg (suc n) i ≡ min (i * 2 ^ suc n) cfg.max_reconnect_interval
interval_after_lem cfg zero i = next_interval-min cfg i
interval_after_lem cfg (suc n) i =
    interval_after_lem cfg n (next_interval cfg i)
    ∙ ap (λ k. min (k * 2 ^ suc n) cfg.max_reconnect_interval) (next_interval-min cfg i)
    ∙ capped (i * 2) cfg.max_reconnect_interval (2 ^ suc n) (one_le_pow (suc n))
    ∙ ap (λ k. min k cfg.max_reconnect_interval)
        (mul_assoc i 2 (2 ^ suc n) ∙ ap (λ k. i * k) (sym (pow-succ' 2 (suc n))))

module _ {W Node : Type 0} (dialing : Dialing W Node) (cfg : RetryConfig) where
  -- A node that was found, and to which no dial succeeds, is tried in every round: `connect` fails
  -- whatever other nodes there are.
  pub connect_rounds_dead :
      (node : Node)
      → ((w : W) → (e : Error) × (w' : W) × (dialing.connect_to_node node w ≡ (err e, w')))
      → (n : ℕ) (first : Bool) (interval : ℕ) (w : W)
      → (connect_rounds dialing cfg n first interval (some node) w).0 ≡ err connect_failed
  unfolding connect_rounds attempt
  connect_rounds_dead node dead zero first interval w = refl
  connect_rounds_dead node dead (suc n) first interval w =
      let (e, w', h) = dead (if first then w else dialing.sleep interval w) in
      rw h (connect_rounds_dead node dead n false _ w')

  next_round_more :
      (r : Outcome (Round Node) × W) (f g : Option Node → W → Outcome (Unit {0}) × W) (w' : W)
      → ((o : Option Node) (v : W) → f o v ≡ (ok tt, w') → g o v ≡ (ok tt, w'))
      → next_round dialing cfg r f ≡ (ok tt, w')
      → next_round dialing cfg r g ≡ (ok tt, w')
  next_round_more (ok connected, w) f g w' fg h = h
  next_round_more (ok (again o), w) f g w' fg h = fg o w h
  next_round_more (err e, w) f g w' fg h = h
  next_round_more (panic, w) f g w' fg h = h

  -- A connection that is made within some number of rounds is made just so where more are allowed.
  pub connect_rounds_more :
      (n k : ℕ) (first : Bool) (interval : ℕ) (known : Option Node) (w w' : W)
      → connect_rounds dialing cfg n first interval known w ≡ (ok tt, w')
      → connect_rounds dialing cfg (n + k) first interval known w ≡ (ok tt, w')
  unfolding connect_rounds
  connect_rounds_more zero k first interval known w w' h = cc
  connect_rounds_more (suc n) k first interval known w w' h =
      let e : suc (n + k) ≡ suc n + k = omega arith in
      subst (λ z. connect_rounds dialing cfg z first interval known w ≡ (ok tt, w')) e
        (next_round_more (attempt dialing cfg known (if first then w else dialing.sleep interval w))
          (connect_rounds dialing cfg n false _) (connect_rounds dialing cfg (n + k) false _) w'
          (λ o v e. connect_rounds_more n k false _ o v w' e) h)
