-- ===== src/Channel.antt =====
-- util.go: OnConnect, OnMessage, OnError and OnMessageEvent. Each is a buffered Go channel with an
-- optional callback, and their methods differ only in what they log, so one generic emitter models
-- the four.
pub mod Fifo
mod Tests
use nkn_sdk_go.Base.{
  ℕ, zero, suc, ◌+◌, ◌≡◌, Bool, true, false, List, [], ◌∷◌, ◌++◌, Option, none, some, length, ltb,
  ◌==◌, if◌then◌else◌,
}
use nkn_sdk_go.Base.Int.{ℤ, pos, pos_part, neg_part}
use nkn_sdk_go.Errors.{Outcome, ok, err, panic}

-- `called` lists what the callback was called with, oldest first; `buffer` what the channel holds.
pub record Emitter {ℓ} (A : Type ℓ) : Type ℓ where
  pub buffer : List A
  pub size : ℕ
  pub closed : Bool
  pub has_callback : Bool
  pub called : List A

-- What a receive from the channel gives: a value, nil of a closed channel, or no return yet.
pub data Received {ℓ} (A : Type ℓ) : Type ℓ where
  value : A → Received A
  nil_value : Received A
  blocked : Received A

module _ {ℓ} {A : Type ℓ} where
  -- `NewOnConnect(size, cb)` and its three siblings.
  unfoldable pub new_emitter : ℕ → Bool → Emitter A
  new_emitter size cb = record {
    buffer = [];
    size = size;
    closed = false;
    has_callback = cb;
    called = [];
  }

  -- `select { case c.C <- x: default: }`: a send on a closed channel panics, and on a full one does
  -- nothing.
  abbrev pub try_send : Emitter A → A → Outcome (Emitter A)
  try_send c x =
      if c.closed
      then panic
      else if ltb (length c.buffer) c.size
      then ok (record c { buffer = c.buffer ++ x ∷ [] })
      else ok c

  -- `receive`.
  unfoldable pub receive : Emitter A → A → Outcome (Emitter A)
  receive c x =
      if c.has_callback then ok (record c { called = c.called ++ x ∷ [] }) else try_send c x

  abbrev take_head : List A → Emitter A → Received A × Emitter A → Received A × Emitter A
  take_head [] c other = other
  take_head (x ∷ xs) c other = (value x, record c { buffer = xs })

  -- `Next`: waits for a value.
  unfoldable pub next : Emitter A → Received A × Emitter A
  next c = take_head c.buffer c (if c.closed then nil_value else blocked, c)

  -- `MaybeNext`: nil at once when there is no value.
  pub maybe_next : Emitter A → Received A × Emitter A
  maybe_next c = take_head c.buffer c (nil_value, c)

  -- `close`: a second close of a channel panics.
  pub close : Emitter A → Outcome (Emitter A)
  close c = if c.closed then panic else ok (record c { closed = true })
