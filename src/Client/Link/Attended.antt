-- ===== src/Client/Link/Attended.antt =====
-- client.go: when an open client is connected or asked to connect.
use nkn_sdk_go.Base.{
  ℕ, ◌==◌, ==_iff, ◌≡◌, ◌≢◌, refl, ap, ◌∙◌, Bool, true, false, inl, inr, Bool-cases, Option, none,
  some, if◌then◌else◌, arith,
}
use nkn_sdk_go.Client.State.{Client, waiting}
use nkn_sdk_go.Client.State.Follows.{Follows}
use nkn_sdk_go.Client.Link.{
  Link, LoopState, absent, reads, Phase, resting, dialing, starting, returning, ended, is_running,
  set_at, client_of,
}

abbrev pub has_loop : Option ℕ → (ℕ → LoopState) → Bool
has_loop none loops = false
has_loop (some n) loops = is_running (loops n)

-- Where the goroutine of `handleReconnect` waits for a request, and there is none, or is about to wait, the
-- connection of an open client has its loop.
abbrev pub AttendedAt : {W : Type 0} → Phase → Client W → (ℕ → LoopState) → Type 0
AttendedAt resting c loops =
    c.is_closed ≡ false → c.handler ≡ waiting → has_loop c.conn loops ≡ true
AttendedAt (dialing k) c loops = Unit
AttendedAt (starting p n) c loops = c.conn ≡ some n
AttendedAt returning c loops = c.is_closed ≡ false → has_loop c.conn loops ≡ true
AttendedAt ended c loops = c.is_closed ≡ true

abbrev pub IsAttended : {W : Type 0} → Link W → Type 0
IsAttended l = AttendedAt l.phase (client_of l) l.loops

stays_closed : (a b : Bool) → (b ≡ false → a ≡ false) → a ≡ true → b ≡ true
stays_closed a true h k = refl
stays_closed a false h k = cc (h refl, k)

has_loop-set_at :
    (o : Option ℕ) (n : ℕ) (s : LoopState) (loops : ℕ → LoopState)
    → is_running s ≡ true
    → has_loop o loops ≡ true
    → has_loop o (set_at n s loops) ≡ true
has_loop-set_at none n s loops run h = h
has_loop-set_at (some m) n s loops run h = ground (arith, run, h)

-- Another connection's loop.
has_loop-other :
    (o : Option ℕ) (n : ℕ) (s : LoopState) (loops : ℕ → LoopState)
    → ¬ (o ≡ some n)
    → has_loop o loops ≡ true
    → has_loop o (set_at n s loops) ≡ true
has_loop-other none n s loops other h = h
has_loop-other (some m) n s loops other h = elim (Bool-cases (m == n)) [
  | inl e ↦ absurd (other (ap (λ k. some k) ((==_iff m n).0 e)))
  | inr e ↦ simp e h
]

module _ {W : Type 0} where
  pub AttendedAt-Follows :
      (p : Phase) (c d : Client W) (loops : ℕ → LoopState)
      → Follows c d
      → AttendedAt p c loops
      → AttendedAt p d loops
  AttendedAt-Follows resting c d loops f a =
      λ o h. ap (λ x. has_loop x loops) f.same_conn ∙ a (f.open_before o) (f.idle_before h)
  AttendedAt-Follows (dialing k) c d loops f a = tt
  AttendedAt-Follows (starting p n) c d loops f a = f.same_conn ∙ a
  AttendedAt-Follows returning c d loops f a =
      λ o. ap (λ x. has_loop x loops) f.same_conn ∙ a (f.open_before o)
  AttendedAt-Follows ended c d loops f a = stays_closed c.is_closed d.is_closed f.open_before a

  -- The loops change, and an open client keeps the loop of its connection.
  pub AttendedAt-loops :
      (p : Phase) (c : Client W) (loops loops' : ℕ → LoopState)
      → (c.is_closed ≡ false → has_loop c.conn loops ≡ true → has_loop c.conn loops' ≡ true)
      → AttendedAt p c loops
      → AttendedAt p c loops'
  AttendedAt-loops resting c loops loops' g a = λ o h. g o (a o h)
  AttendedAt-loops (dialing k) c loops loops' g a = tt
  AttendedAt-loops (starting p n) c loops loops' g a = a
  AttendedAt-loops returning c loops loops' g a = λ o. g o (a o)
  AttendedAt-loops ended c loops loops' g a = a

  -- After a loop that has failed and has asked for a reconnect.
  pub AttendedAt-failed :
      (p : Phase) (c d : Client W) (n : ℕ) (loops : ℕ → LoopState)
      → Follows c d
      → (c.is_closed ≡ false → d.handler ≢ waiting)
      → ¬ ((p ≡ returning) × (c.conn ≡ some n))
      → AttendedAt p c loops
      → AttendedAt p d (set_at n absent loops)
  AttendedAt-failed resting c d n loops f asked kept a = λ o h. absurd (asked (f.open_before o) h)
  AttendedAt-failed (dialing k) c d n loops f asked kept a = tt
  AttendedAt-failed (starting p m) c d n loops f asked kept a = f.same_conn ∙ a
  AttendedAt-failed returning c d n loops f asked kept a = λ o.
      ap (λ x. has_loop x (set_at n absent loops)) f.same_conn
      ∙ has_loop-other c.conn n absent loops (λ e. kept (refl, e)) (a (f.open_before o))
  AttendedAt-failed ended c d n loops f asked kept a =
      stays_closed c.is_closed d.is_closed f.open_before a

  -- The loop goes on.
  pub AttendedAt-runs :
      (p : Phase) (c : Client W) (n : ℕ) (s : LoopState) (loops : ℕ → LoopState)
      → is_running s ≡ true
      → AttendedAt p c loops
      → AttendedAt p c (set_at n s loops)
  AttendedAt-runs p c n s loops run =
      AttendedAt-loops p c loops (set_at n s loops) λ o. has_loop-set_at c.conn n s loops run

  -- The loop of a closed client is left.
  pub AttendedAt-left :
      (p : Phase) (c : Client W) (n : ℕ) (loops : ℕ → LoopState)
      → AttendedAt p c loops
      → AttendedAt p c (set_at n (if c.is_closed then absent else reads) loops)
  AttendedAt-left p c n loops =
      AttendedAt-loops p c loops (set_at n (if c.is_closed then absent else reads) loops)
        λ o h. simp o (has_loop-set_at c.conn n reads loops refl h)
