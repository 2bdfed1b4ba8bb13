-- ===== src/MultiClient/Hub/Once.antt =====
-- multiclient.go: messages that several sub clients receive are put on `OnMessage` once.
use nkn_sdk_go.Base.{
  ℕ, suc, ◌+◌, ◌≤◌, ◌≡◌, Bool, false, ◌||◌, List, [], ◌∷◌, ◌++◌, append_assoc, length,
  length-append, lt→ltb, if◌then◌else◌, arith,
}
use nkn_sdk_go.Base.Int.{ℤ}
use nkn_sdk_go.Base.Bytes.{Bytes, bytes_eq}
use nkn_sdk_go.Errors.{ok}
use nkn_sdk_go.Action.{Action, pure, ◌>>=◌, ◌>>◌}
use nkn_sdk_go.Channel.Fifo.{receive_open, receive_kept}
use nkn_sdk_go.Client.State.{Message}
use nkn_sdk_go.MultiClient.Hub.{
  Hub, cached, with_base_src, receive_event, observe, keep, receive_message,
}

-- The messages come one after the other, each from a sub client.
pub receive_each : List (ℤ × Message) → Action Hub (Unit {0})
receive_each [] = pure tt
receive_each ((i, m) ∷ ms) = do receive_message i m; receive_each ms

-- Neither closed nor with a callback for messages.
pub record IsOpen (h : Hub) : Type 0 where
  pub open_hub : h.is_closed ≡ false
  pub open_messages : h.on_message.closed ≡ false
  pub open_events : h.on_message_event.closed ≡ false
  pub no_callback : h.on_message.has_callback ≡ false

-- What a message leaves behind.
abbrev Received : Message → Hub → Hub → Type 0
Received m h t =
    IsOpen t
    × (t.msg_cache
        ≡ (if cached m.message_id h.msg_cache then h.msg_cache else m.message_id ∷ h.msg_cache))
    × (t.on_message.size ≡ h.on_message.size)
    × (t.on_message.buffer ≡ (
        if cached m.message_id h.msg_cache
        then h.on_message.buffer
        else h.on_message.buffer ++ with_base_src m ∷ []))

-- The first message of each id that is not in the cache, without the prefix in its source.
unfoldable pub fresh : List Bytes → List (ℤ × Message) → List Message
fresh seen [] = []
fresh seen ((i, m) ∷ ms) =
    let rest = fresh seen ms in
    let rest' = fresh (m.message_id ∷ seen) ms in
    if cached m.message_id seen then rest else with_base_src m ∷ rest'

-- How many of the messages have the id.
abbrev pub times : Bytes → List Message → ℕ
times k [] = 0
times k (m ∷ ms) = let rest = times k ms in if bytes_eq m.message_id k then suc rest else rest

abbrev pub comes : Bytes → List (ℤ × Message) → Bool
comes k [] = false
comes k ((i, m) ∷ ms) = bytes_eq m.message_id k || comes k ms

-- Nothing is locked between the look into the cache and the entry: when two goroutines get messages of
-- one new id, and both look before one of them has made its entry, both messages are put on `OnMessage`.
pub seen_twice :
    (i j : ℤ) (m n : Message) (h : Hub)
    → IsOpen h
    → cached m.message_id h.msg_cache ≡ false
    → n.message_id ≡ m.message_id
    → length h.on_message.buffer + 2 ≤ h.on_message.size
    → (t : Hub) × ((do
      a ← observe i m
      b ← observe j n
      (if a then pure tt else keep m) >> (if b then pure tt else keep n))
          h
        ≡ (ok tt, t))
      × (t.on_message.buffer ≡ h.on_message.buffer ++ with_base_src m ∷ with_base_src n ∷ [])
unfolding observe keep
seen_twice i j m n h o c same room =
    let (e, sent, still) =
      receive_open h.on_message_event (receive_event i (with_base_src m)) o.open_events in
    let (f, sent', still') = receive_open e (receive_event j (with_base_src n)) still in
    let b = h.on_message.buffer in
    let first =
      receive_kept h.on_message (with_base_src m) o.open_messages o.no_callback
        (lt→ltb (length b) h.on_message.size (omega (arith, room))) in
    let longer = length-append b (with_base_src m ∷ []) in
    let second =
      receive_kept (record h.on_message { buffer = b ++ with_base_src m ∷ [] }) (with_base_src n)
        o.open_messages o.no_callback
        (lt→ltb (length (b ++ with_base_src m ∷ [])) h.on_message.size
          (omega (arith, room, longer))) in
    (
      record h {
        on_message_event = f;
        msg_cache = n.message_id ∷ m.message_id ∷ h.msg_cache;
        on_message = record h.on_message {
          buffer = (b ++ with_base_src m ∷ []) ++ with_base_src n ∷ [];
        };
      },
      ground (arith, sent, sent', c, same, first, second, o.open_hub),
      append_assoc b (with_base_src m ∷ []) (with_base_src n ∷ []),
    )
