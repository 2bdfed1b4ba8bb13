-- ===== src/MultiClient/Hub/Closed.antt =====
-- multiclient.go: `Close` of a multiclient, and what its goroutines do afterwards.
use nkn_sdk_go.Base.{◌≡◌, refl, true, false, Option, Bool-cases, inl, inr, arith}
use nkn_sdk_go.Base.Int.{ℤ}
use nkn_sdk_go.Errors.{ok, panic}
use nkn_sdk_go.Channel.{receive}
use nkn_sdk_go.Channel.Fifo.{close_open}
use nkn_sdk_go.Client.State.{Node, Message}
use nkn_sdk_go.MultiClient.Hub.{Hub, receive_node, observe, receive_message, close_hub}

-- The channels are closed just when the multiclient is.
pub record IsValid (h : Hub) : Type 0 where
  pub connect_closed : h.on_connect.closed ≡ h.is_closed
  pub message_closed : h.on_message.closed ≡ h.is_closed
  pub event_closed : h.on_message_event.closed ≡ h.is_closed
  pub signal_closed : h.on_close ≡ h.is_closed

-- A multiclient that is well formed closes without a panic, keeps its ids and what its channels hold, and
-- is well formed and closed then; to close it again changes nothing.
pub close_hub-IsValid :
    (h : Hub)
    → IsValid h
    → (t : Hub) × (close_hub h ≡ (ok tt, t))
      × IsValid t
      × (t.is_closed ≡ true)
      × (t.on_message.buffer ≡ h.on_message.buffer)
      × (t.msg_cache ≡ h.msg_cache)
      × (close_hub t ≡ (ok tt, t))
unfolding close_hub
close_hub-IsValid h v = elim (Bool-cases h.is_closed) [
  | inl c ↦ (h, ground (arith, c), v, c, refl, refl, ground (arith, c))
  | inr c ↦ (
    record h {
      is_closed = true;
      on_connect = record h.on_connect { closed = true };
      on_message = record h.on_message { closed = true };
      on_message_event = record h.on_message_event { closed = true };
      on_close = true;
    },
    ground (
      arith,
      c,
      v.connect_closed,
      v.message_closed,
      v.event_closed,
      v.signal_closed,
      close_open h.on_connect,
      close_open h.on_message,
      close_open h.on_message_event,
    ),
    record {
      connect_closed = refl;
      message_closed = refl;
      event_closed = refl;
      signal_closed = refl;
    },
    refl,
    refl,
    refl,
    ground arith,
  )
]

-- On a closed multiclient a goroutine that gets a node does nothing. One that gets a message, which a sub client
-- may still hand it until that is closed too, panics: the event is sent before the test, and without a
-- callback the channel for events is closed.
receive_after_close :
    (h : Hub) (i : ℤ) (m : Message) (target : Option Node)
    → IsValid h
    → h.is_closed ≡ true
    → h.on_message_event.has_callback ≡ false
    → (receive_node target h ≡ (ok tt, h)) × ((receive_message i m h).0 ≡ panic)
unfolding receive_node receive_message observe receive
receive_after_close h i m target v c cb = (ground (arith, c), ground (arith, cb, c, v.event_closed))
