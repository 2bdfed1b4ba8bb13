-- ===== src/Resolver/Chain.antt =====
-- resolver.go: `ResolveDestN` follows a chain of answers to its end.
use nkn_sdk_go.Base.{ℕ, zero, suc, ◌<◌, Bool, true, false, ◌≡◌, refl, List, arith, ◌↔◌}
use nkn_sdk_go.Base.Int.{ℤ, pos_part}
use nkn_sdk_go.Base.Bytes.{Bytes}
use nkn_sdk_go.Errors.{Outcome, ok, err, panic, resolve_limit}
use nkn_sdk_go.Resolver.{Resolver, resolve_dest, resolve_rounds, resolve_dest_n}

module _ {ℓ} {W : Type ℓ} (rs : List (Resolver W)) where
  -- From `d` in world `w`, `k` answers lead to `e`, for which no resolver has an answer.
  pub data Chain : ℕ → Bytes → W → Bytes → W → Type ℓ where
    stop :
        {d d' e : Bytes} {w v : W}
        → resolve_dest rs d w ≡ (ok (d', false), v)
        → d ≡ e
        → Chain 0 d w e v
    hop :
        {k : ℕ} {d d' e : Bytes} {w w' v : W}
        → resolve_dest rs d w ≡ (ok (d', true), w')
        → Chain k d' w' e v
        → Chain (suc k) d w e v

  -- From `d` in world `w`, each of `k` rounds has an answer, the last in world `v`.
  pub data Hops : ℕ → Bytes → W → W → Type ℓ where
    done : {d : Bytes} {w : W} → Hops 0 d w w
    more :
        {k : ℕ} {d d' : Bytes} {w w' v : W}
        → resolve_dest rs d w ≡ (ok (d', true), w')
        → Hops k d' w' v
        → Hops (suc k) d w v

  -- What is left of a round once the resolvers have answered.
  round_sound :
      (n : ℕ) (d : Bytes) (w : W) (e : Bytes) (v : W)
      → ((d' : Bytes) (w' : W)
          → resolve_rounds rs n d' w' ≡ (ok e, v)
          → (k : ℕ) × (k < n) × Chain k d' w' e v)
      → (r : Outcome (Bytes × Bool) × W) → resolve_dest rs d w ≡ r
      → resolve_rounds rs (suc n) d w ≡ (ok e, v)
      → (k : ℕ) × (k < suc n) × Chain k d w e v
  unfolding resolve_rounds
  round_sound n d w e v ih (ok (d', true), w') q h =
      let h' : resolve_rounds rs n d' w' ≡ (ok e, v) = rw q at h in
      let (k, lt, c) = ih d' w' h' in (suc k, omega arith, hop q c)
  round_sound n d w e v ih (ok (d', false), w') q h =
      let h' : ◌≡◌ {A = Outcome Bytes × W} (ok d, w') (ok e, v) = rw q at h in
      (0, omega arith, stop {d' = d'} (cc) (cc))
  round_sound n d w e v ih (err x, w') q h =
      let h' : ◌≡◌ {A = Outcome Bytes × W} (err x, w') (ok e, v) = rw q at h in cc
  round_sound n d w e v ih (panic, w') q h =
      let h' : ◌≡◌ {A = Outcome Bytes × W} (panic, w') (ok e, v) = rw q at h in cc

  sound :
      (n : ℕ) (d : Bytes) (w : W) (e : Bytes) (v : W)
      → resolve_rounds rs n d w ≡ (ok e, v)
      → (k : ℕ) × (k < n) × Chain k d w e v
  unfolding resolve_rounds
  sound zero d w e v h = cc
  sound (suc n) d w e v h =
      round_sound n d w e v (λ d' w'. sound n d' w' e v) (resolve_dest rs d w) refl h

  complete :
      (n : ℕ) {k : ℕ} {d e : Bytes} {w v : W}
      → Chain k d w e v
      → k < n
      → resolve_rounds rs n d w ≡ (ok e, v)
  unfolding resolve_rounds
  complete zero c h = absurd (omega arith)
  complete (suc n) (stop q e) h = rw q (cc)
  complete (suc n) (hop q c) h = rw q (complete n c (omega arith))

  limit :
      {k : ℕ} {d : Bytes} {w v : W}
      → Hops k d w v
      → resolve_rounds rs k d w ≡ (err resolve_limit, v)
  unfolding resolve_rounds
  limit done = refl
  limit (more q h) = rw q (limit h)

  -- `ResolveDestN` answers `e` exactly when fewer hops than the depth lead from the destination to
  -- `e` and no resolver has an answer for `e`; the world is the one that those calls leave.
  pub resolve_dest_n-Chain :
      (depth : ℤ) (d e : Bytes) (w v : W)
      → (resolve_dest_n rs depth d w ≡ (ok e, v))
        ↔ ((k : ℕ) × (k < pos_part depth) × Chain k d w e v)
  unfolding resolve_dest_n
  resolve_dest_n-Chain depth d e w v =
      (sound (pos_part depth) d w e v, λ (k, lt, c). complete (pos_part depth) c lt)

  -- When every round up to the depth has an answer, the result is the limit error, and no
  -- destination.
  pub resolve_dest_n-Hops :
      (depth : ℤ) (d : Bytes) (w v : W)
      → Hops (pos_part depth) d w v
      → resolve_dest_n rs depth d w ≡ (err resolve_limit, v)
  unfolding resolve_dest_n
  resolve_dest_n-Hops depth d w v h = limit h
