-- ===== src/NanoPay/Claimer/Flusher/Waits.antt =====
-- nanopay.go: how long the goroutine waits when a flush is not due.
use nkn_sdk_go.Base.{
  ℕ, ◌+◌, ◌*◌, ◌-◌, ◌<◌, ◌≤◌, ◌≡◌, sym, ap, ◌∙◌, subst, ltb, ltb→lt, Bool, false, Bool-cases,
  if-cases, Option, some, none, inl, inr, if◌then◌else◌, arith,
}
use nkn_sdk_go.Base.Int.{ℤ, pos, ◌+ℤ◌, ◌-ℤ◌, ◌≤ℤ◌, ltb_ℤ, to_u32, wrap_i64, wrap_i64_lem}
use native.Mathlib.Nat.{mul-le-mul_right}
use nkn_sdk_go.Errors.{Error, Outcome, ok, err, panic, ok-injective}
use nkn_sdk_go.Channel.{Emitter, receive}
use nkn_sdk_go.NanoPay.{Blockchain, add_u32, force_flush_delta}
use nkn_sdk_go.NanoPay.Claimer.{Claimer, flush}
use nkn_sdk_go.NanoPay.Claimer.Flusher.{
  Flusher, Verdict, goes_on, waits, leaves, milliseconds, smaller, sub_u32, reported, flushed,
  flush_now, sleep_duration, flush_early, flush_due, flush_some, round,
}

module _ {W : Type 0} (chain : Blockchain W) (consensus : ℕ) (interval : ℤ) where
  open chain use {Tx, now, get_height}

  -- A wait of `d` at the chain height `h`: no longer than the claim interval lasts from the time that was
  -- read before the height, and over before the
  -- transaction is within `force_flush_delta` blocks of its expiration.
  pub record IsWait (d : ℤ) (h : ℕ) (s : Flusher chain) (w : W) : Type 0 where
    pub height : get_height s.claimer.world ≡ (ok (pos h), w)
    pub not_expired : h + force_flush_delta < s.claimer.expiration
    pub in_interval :
        d ≤ℤ ((s.claimer.last_claim_time +ℤ milliseconds interval) -ℤ now s.claimer.world)
    pub in_time : d ≤ℤ pos ((s.claimer.expiration - (h + force_flush_delta)) * consensus)

  -- No reported error is a wait.
  Verdict-injective : {a b : ℤ} → waits a ≡ waits b → a ≡ b
  Verdict-injective h = cc

  reported-waits :
      (o : Outcome (Emitter Error)) (v : Verdict) (s s' : Flusher chain) (d : ℤ)
      → reported chain o v s ≡ (ok (waits d), s')
      → v ≡ waits d
  reported-waits (ok e) v s s' d h = ok-injective (λ i. (h i).0)
  reported-waits (err x) v s s' d h = cc
  reported-waits panic v s s' d h = cc

  flushed-waits :
      (r : Outcome (Unit {0}) × Claimer chain) (s s' : Flusher chain) (d : ℤ)
      → ¬ (flushed chain r s ≡ (ok (waits d), s'))
  unfolding flushed
  flushed-waits (ok u, c) s s' d h = cc
  flushed-waits (err e, c) s s' d h =
      let same = reported-waits (receive s.on_error e) leaves _ s' d h in cc
  flushed-waits (panic, c) s s' d h = cc

  smaller-le : (a b : ℤ) → (smaller a b ≤ℤ a) × (smaller a b ≤ℤ b)
  smaller-le a b = ground arith

  sub_u32_lem : (a b : ℕ) → b ≤ a → a < 4294967296 → sub_u32 a b ≡ a - b
  unfolding to_u32 ◌-ℤ◌
  sub_u32_lem a b le small = ground arith

  to_u32_lem : (h : ℕ) → h < 4294967296 → to_u32 (pos h) ≡ h
  unfolding to_u32
  to_u32_lem h small = omega arith

  -- The blocks until the expiration, less the last ones, when nothing overflows.
  until_expiration :
      (e h : ℕ)
      → e < 4294967296
      → h + force_flush_delta < e
      → sub_u32 (sub_u32 e h) force_flush_delta ≡ e - (h + force_flush_delta)
  until_expiration e h small lt =
      ap (λ x. sub_u32 x force_flush_delta) (sub_u32_lem e h (omega arith) small)
      ∙ sub_u32_lem (e - h) force_flush_delta (omega arith) (omega arith)
      ∙ omega arith

  sub_le : (a b : ℕ) → a - b ≤ a
  sub_le a b = omega arith

  le_of_eq : {a b : ℕ} → a ≡ b → a ≤ b
  le_of_eq e = omega (arith, e)

  -- A wait is within both bounds.
  sleep_duration-le :
      (start : ℤ) (c : Claimer chain) (h : ℕ)
      → c.expiration < 4294967296
      → h + force_flush_delta < c.expiration
      → c.expiration * consensus < 9223372036854775808
      → (sleep_duration chain consensus interval start h c
          ≤ℤ ((c.last_claim_time +ℤ milliseconds interval) -ℤ start))
        × (sleep_duration chain consensus interval start h c
            ≤ℤ pos ((c.expiration - (h + force_flush_delta)) * consensus))
  unfolding sleep_duration
  sleep_duration-le start c h small lt calm =
      let a = (c.last_claim_time +ℤ milliseconds interval) -ℤ start in
      let n = sub_u32 (sub_u32 c.expiration h) force_flush_delta in
      let same : n ≡ c.expiration - (h + force_flush_delta) =
        until_expiration c.expiration h small lt in
      let fits : n * consensus < 9223372036854775808 = omega (
        arith,
        mul-le-mul_right consensus (le_of_eq same),
        mul-le-mul_right consensus (sub_le c.expiration (h + force_flush_delta)),
        calm,
      ) in
      let e : wrap_i64 (pos (n * consensus))
          ≡ pos ((c.expiration - (h + force_flush_delta)) * consensus) =
        wrap_i64_lem (pos (n * consensus)) (fits, omega arith)
        ∙ ap (λ x. pos (x * consensus)) same in
      let (l1, l2) = smaller-le a (wrap_i64 (pos (n * consensus))) in
      (l1, subst (λ x. smaller a (wrap_i64 (pos (n * consensus))) ≤ℤ x) e l2)

  -- The height of the chain and the expiration are such that no sum of them overflows.
  pub record IsSmall (h : ℕ) (s : Flusher chain) : Type 0 where
    pub height_small : h + force_flush_delta < 4294967296
    pub expiration_small : s.claimer.expiration < 4294967296
    pub wait_small : s.claimer.expiration * consensus < 9223372036854775808

  add_u32_lem :
      (h : ℕ)
      → h + force_flush_delta < 4294967296
      → add_u32 (to_u32 (pos h)) force_flush_delta ≡ h + force_flush_delta
  unfolding to_u32
  add_u32_lem h low = omega arith

  flush_early-IsWait :
      (h : ℕ) (w : W) (s s' : Flusher chain) (d : ℤ)
      → IsSmall h s
      → get_height s.claimer.world ≡ (ok (pos h), w)
      → flush_early chain consensus interval (now s.claimer.world) (ok (pos h), w) s
        ≡ (ok (waits d), s')
      → IsWait d h s w
  unfolding flush_early
  flush_early-IsWait h w s s' d small q k =
      let t : Flusher chain = record s { claimer = record s.claimer { world = w } } in
      let b = ltb (add_u32 (to_u32 (pos h)) force_flush_delta) s.claimer.expiration in
      let start = now s.claimer.world in
      let z = sleep_duration chain consensus interval start (to_u32 (pos h)) t.claimer in
      let pick : Bool → Outcome Verdict × Flusher chain =
        λ c. if c then (ok (waits z), t) else flush_now chain t in
      elim (Bool-cases b) [
        | inl e ↦
            let lt : h + force_flush_delta < s.claimer.expiration =
              subst (λ x. x < s.claimer.expiration) (add_u32_lem h small.height_small)
                (ltb→lt (add_u32 (to_u32 (pos h)) force_flush_delta) s.claimer.expiration e) in
            let same : z ≡ d =
              Verdict-injective (ok-injective (λ i. ((ap pick (sym e) ∙ k) i).0)) in
            let th = to_u32_lem h (omega (arith, small.height_small)) in
            let (l1, l2) =
              sleep_duration-le start t.claimer h small.expiration_small lt small.wait_small in
            let both =
              subst (λ x. (sleep_duration chain consensus interval start x t.claimer ≡ d)) th
                same in
            record {
              height = q;
              not_expired = lt;
              in_interval =
                  subst (λ x. x ≤ℤ ((s.claimer.last_claim_time +ℤ milliseconds interval) -ℤ start))
                    both l1;
              in_time =
                  subst
                    (λ x. x ≤ℤ pos ((s.claimer.expiration - (h + force_flush_delta)) * consensus))
                    both l2;
            }
        | inr e ↦ absurd (flushed-waits (flush chain false t.claimer) t s' d (ap pick (sym e) ∙ k))
      ]

  flush_now-waits : (s s' : Flusher chain) (d : ℤ) → ¬ (flush_now chain s ≡ (ok (waits d), s'))
  flush_now-waits s s' d = flushed-waits (flush chain false s.claimer) s s' d

  flush_due-IsWait :
      (h : ℕ) (w : W) (s s' : Flusher chain) (d : ℤ)
      → IsSmall h s
      → get_height s.claimer.world ≡ (ok (pos h), w)
      → flush_due chain consensus interval s ≡ (ok (waits d), s')
      → IsWait d h s w
  unfolding flush_due
  flush_due-IsWait h w s s' d small q k =
      let low =
        ltb_ℤ (wrap_i64 (s.claimer.amount -ℤ s.claimer.prev_flush_amount))
          s.claimer.min_flush_amount in
      let soon = ltb_ℤ (now s.claimer.world) (s.claimer.last_claim_time +ℤ milliseconds interval) in
      let early =
        flush_early chain consensus interval (now s.claimer.world) (get_height s.claimer.world) s in
      let skip : Outcome Verdict × Flusher chain = (ok goes_on, s) in
      elim (if-cases low {x = skip} {y = if soon then early else flush_now chain s} k) [
        | inl (e, p) ↦ cc
        | inr (e, p) ↦ elim (if-cases soon {x = early} {y = flush_now chain s} p) [
          | inl (e2, p2) ↦
              flush_early-IsWait h w s s' d small q
                ((λ i. flush_early chain consensus interval (now s.claimer.world) (sym q i) s) ∙ p2)
          | inr (e2, p2) ↦ absurd (flush_now-waits s s' d p2)
        ]
      ]

  flush_some-IsWait :
      (o : Option Tx) (h : ℕ) (w : W) (s s' : Flusher chain) (d : ℤ)
      → IsSmall h s
      → get_height s.claimer.world ≡ (ok (pos h), w)
      → flush_some chain consensus interval o s ≡ (ok (waits d), s')
      → IsWait d h s w
  flush_some-IsWait none h w s s' d small q k = cc
  flush_some-IsWait (some t) h w s s' d small q k = flush_due-IsWait h w s s' d small q k

  -- When a round waits, it has a transaction that is not yet within the last blocks before its expiration,
  -- and the wait is no longer than the rest of the claim interval at the time that was read before the
  -- height, and over before those blocks.
  pub round-IsWait :
      (h : ℕ) (w : W) (s s' : Flusher chain) (d : ℤ)
      → IsSmall h s
      → get_height s.claimer.world ≡ (ok (pos h), w)
      → round chain consensus interval s ≡ (ok (waits d), s')
      → IsWait d h s w
  unfolding round
  round-IsWait h w s s' d small q k = elim (if-cases s.claimer.closed k) [
    | inl (e, p) ↦ cc
    | inr (e, p) ↦ flush_some-IsWait s.claimer.tx h w s s' d small q p
  ]
