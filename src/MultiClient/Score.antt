-- ===== src/MultiClient/Score.antt =====
-- multiclient.go: `CalculateClientScore`. A score is a float64 between 0 and 1, which is exact here as a
-- multiple of 1/9000000: an hour of connection, 0.4, is 3600000 units, one for a millisecond. The
-- rounding of float64 is not modelled, nor a duration of more than 292 years.
use nkn_sdk_go.Base.{
  ℕ, ◌+◌, ◌-◌, ◌*◌, ◌≤◌, ◌≡◌, min, true, Option, some, none, arith, if◌then◌else◌,
}
use nkn_sdk_go.Base.Int.{ℤ, pos, pos_part, ◌-ℤ◌, ltb_ℤ}
use nkn_sdk_go.Client.State.{Stats}

-- Milliseconds since the client connected, or 0 for a time that is ahead.
abbrev pub connected_for : ℤ → Stats → ℕ
connected_for now s = pos_part (now -ℤ s.connect_time)

-- `CalculateClientScore`
unfoldable pub score : ℤ → Option Stats → ℕ
score now none = 4500000
score now (some s) =
    if ltb_ℤ (pos 0) s.connect_time
    then min 9000000 (
        4500000
        + min (connected_for now s) 3600000
        - min (s.reconnect_count * 180000) 900000
        - min (s.send_failure_count * 90000) 900000)
    else 4500000

-- A score is between 0.3 and 0.9, so that the two bounds 0 and 1 at its end never change it.
pub score_bounds : (now : ℤ) (o : Option Stats) → (2700000 ≤ score now o) × (score now o ≤ 8100000)
unfolding score
score_bounds now none = (omega arith, omega arith)
score_bounds now (some s) = (ground arith, ground arith)

-- At most ten failed sends and five reconnections cost anything: whatever they count, a client that was
-- connected for an hour scores at least as much as one that has just connected without any.
pub score_after_hour :
    (now : ℤ) (s fresh : Stats)
    → ltb_ℤ (pos 0) s.connect_time ≡ true
    → 3600000 ≤ connected_for now s
    → connected_for now fresh ≤ 1800000
    → score now (some fresh) ≤ score now (some s)
unfolding score
score_after_hour now s fresh started long short = ground arith
