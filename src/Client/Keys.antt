-- ===== src/Client/Keys.antt =====
-- client.go: `getOrComputeSharedKey`, the cache of shared keys by public key.
use nkn_sdk_go.Base.{
  ℕ, ◌≡◌, refl, not, none, some, length, ◌==◌, arith, if◌then◌else◌, Option-cases, inl, inr, sym,
}
use nkn_sdk_go.Base.Bytes.{Bytes, Dict, lookup, insert, lookup-insert, bytes_eq_iff}
use nkn_sdk_go.Errors.{Outcome, ok, err, Outcome-cases, invalid_pubkey_size, invalid_pubkey}
use nkn_sdk_go.Action.{Action, pure, modify, lift, ◌>>=◌, ◌>>◌}
use nkn_sdk_go.Message.{Nacl}

-- The part of a client that encryption works with. `world` is what lies outside the program.
pub record Keys (W : Type 0) : Type 0 where
  pub world : W
  pub shared_keys : Dict Bytes

-- `ed25519.PublicKeySize`
abbrev pub public_key_size : ℕ
public_key_size = 32

module _ {W : Type 0} (nacl : Nacl W) (secret : Bytes) where
  -- The key by itself: a function of the two keys.
  unfoldable pub compute_key : Bytes → Outcome Bytes
  compute_key pk =
      if not (length pk == public_key_size)
      then err invalid_pubkey_size
      else elim (nacl.to_curve pk) [
        | none ↦ err invalid_pubkey
        | some c ↦ ok (nacl.precompute c secret)
      ]

  -- `getOrComputeSharedKey`: from the cache, else computed and stored.
  unfoldable pub get_or_compute_shared_key : Bytes → Action (Keys W) Bytes
  get_or_compute_shared_key pk s = elim (lookup pk s.shared_keys) [
    | some k ↦ (ok k, s)
    | none ↦
        (do
          k ← lift (compute_key pk)
          modify (λ t. record t { shared_keys = insert pk k t.shared_keys })
          pure k)
          s
  ]

  -- Every key in the cache is the one that would be computed.
  abbrev pub IsCache : Dict Bytes → Type 0
  IsCache d = (pk k : Bytes) → lookup pk d ≡ some k → compute_key pk ≡ ok k

  insert-IsCache :
      (pk k : Bytes) (d : Dict Bytes) → compute_key pk ≡ ok k → IsCache d → IsCache (insert pk k d)
  insert-IsCache pk k d h valid j l e =
      ground (arith, lookup-insert pk j k d, valid j l, bytes_eq_iff pk j)

  -- On a sound cache the call returns what a computation from scratch returns, and leaves a sound
  -- cache and the world as it was.
  pub get_or_compute_shared_key_lem :
      (pk : Bytes) (s : Keys W)
      → IsCache s.shared_keys
      → ((get_or_compute_shared_key pk s).0 ≡ compute_key pk)
        × IsCache (get_or_compute_shared_key pk s).1.shared_keys
        × ((get_or_compute_shared_key pk s).1.world ≡ s.world)
  unfolding get_or_compute_shared_key
  get_or_compute_shared_key_lem pk s valid = elim (Option-cases (lookup pk s.shared_keys)) [
    | inr (k, hit) ↦ rw (hit, get_or_compute_shared_key) (sym (valid pk k hit), valid, refl)
    | inl miss ↦ elim (Outcome-cases (compute_key pk)) [
      | inl (k, e) ↦
          rw (miss, get_or_compute_shared_key, e)
            (refl, insert-IsCache pk k s.shared_keys e valid, refl)
      | inr (inl (x, e)) ↦ rw (miss, get_or_compute_shared_key, e) (refl, valid, refl)
      | inr (inr e) ↦ rw (miss, get_or_compute_shared_key, e) (refl, valid, refl)
    ]
  ]
