-- ===== src/Client/State/Invariant.antt =====
-- client.go: in a client that is well formed no operation panics, and closing is final.
use nkn_sdk_go.Base.{
  ℕ, ◌≡◌, ◌≢◌, true, false, Option, none, arith, if◌then◌else◌, inl, inr, Bool-cases, Option-cases,
  ◌∙◌, refl, ◌⊎◌,
}
use nkn_sdk_go.Base.Int.{ℤ}
use nkn_sdk_go.Base.Bytes.{Bytes}
use nkn_sdk_go.Errors.{ok, panic}
use nkn_sdk_go.Action.{>>-step}
use nkn_sdk_go.Channel.{close}
use nkn_sdk_go.Channel.Fifo.{receive_open, close_open}
use nkn_sdk_go.Client.State.{
  Client, Handler, waiting, busy, connecting, disconnected, Node, Net, close_client, reconnect,
  write_message, handle_set_client, outside, record_send_failure, close_channels, on_connect_do,
  on_message_do, on_event_do, store,
}

Handler-cases : (h : Handler) → (h ≡ waiting) ⊎ ((n : Option Node) × (h ≡ busy n))
Handler-cases waiting = inl refl
Handler-cases (busy n) = inr (n, refl)

module _ {W : Type 0} where
  -- The channels of a client are closed exactly when the client is, and a client that is open has a
  -- connection.
  pub record IsValid (c : Client W) : Type 0 where
    pub connect_closed : c.on_connect.closed ≡ c.is_closed
    pub message_closed : c.on_message.closed ≡ c.is_closed
    pub event_closed : c.on_message_event.closed ≡ c.is_closed
    pub reconnect_closed_eq : c.reconnect_closed ≡ c.is_closed
    pub challenge_closed : c.challenge_signature.closed ≡ c.is_closed
    pub has_conn : c.conn ≢ none

  -- The network returns or gives an error, and never panics.
  pub record IsCalm (net : Net W) : Type 0 where
    pub calm_write : (n : ℕ) (b : Bytes) (w : W) → (net.write n b w).0 ≢ panic
    pub calm_close : (n : ℕ) (w : W) → (net.close_conn n w).0 ≢ panic

  -- `Reconnect` never panics in a client that is well formed, keeps it well formed, and opens no
  -- closed one.
  pub reconnect-IsValid :
      (target : Option Node) (c : Client W)
      → IsValid c
      → ((reconnect target c).0 ≡ ok tt)
        × IsValid (reconnect target c).1
        × ((reconnect target c).1.is_closed ≡ c.is_closed)
  unfolding reconnect
  reconnect-IsValid target c v = ground arith

  -- After `Reconnect` on an open client the goroutine that reconnects has a request.
  pub reconnect-asks :
      (target : Option Node) (c : Client W)
      → IsValid c
      → c.is_closed ≡ false
      → (reconnect target c).1.handler ≢ waiting
  unfolding reconnect
  reconnect-asks target c v open_client = elim (Handler-cases c.handler) [
    | inl e ↦ λ h. ground (arith, e, open_client, v.reconnect_closed_eq, h)
    | inr (n, e) ↦ λ h. ground (arith, e, open_client, v.reconnect_closed_eq, h)
  ]

  pub handle_set_client-IsValid :
      (hash : Bytes) (now : ℤ) (c : Client W)
      → IsValid c
      → ((handle_set_client hash now c).0 ≡ ok tt)
        × IsValid (handle_set_client hash now c).1
        × ((handle_set_client hash now c).1.is_closed ≡ c.is_closed)
  unfolding handle_set_client
  handle_set_client-IsValid hash now c v = ground (arith, receive_open c.on_connect c.node)

  -- A write never panics on a calm network; a write that fails leaves the client well formed.
  pub write_message-IsValid :
      (net : Net W) (buf : Bytes) (c : Client W)
      → IsCalm net
      → IsValid c
      → ((write_message net buf c).0 ≢ panic)
        × IsValid (write_message net buf c).1
        × ((write_message net buf c).1.is_closed ≡ c.is_closed)
  unfolding write_message
  write_message-IsValid net buf c calm v = elim (Option-cases c.conn) [
    | inl missing ↦ absurd (v.has_conn missing)
    | inr (n, e) ↦
        let c' : Client W = (outside (net.write n buf) c).1 in
        let v' : IsValid c' = ground arith in
        ground (arith, calm.calm_write n buf c.keys.world, reconnect-IsValid none c' v')
  ]

  -- A client with all channels closed that `Close` closes before the connection.
  abbrev with_channels_closed : Client W → Client W
  with_channels_closed c = record c {
    is_closed = true;
    state = disconnected;
    on_connect = record c.on_connect { closed = true };
    on_message = record c.on_message { closed = true };
    on_message_event = record c.on_message_event { closed = true };
    reconnect_closed = true;
  }

  close_channels_open :
      (c : Client W)
      → IsValid c
      → c.is_closed ≡ false
      → close_channels c ≡ (ok tt, with_channels_closed c)
  unfolding close_channels
  close_channels_open c v open_client =
      let c0 : Client W = record c { is_closed = true; state = disconnected } in
      let c1 : Client W = record c0 { on_connect = record c.on_connect { closed = true } } in
      let c2 : Client W = record c1 { on_message = record c.on_message { closed = true } } in
      let c3 : Client W = record c2 {
        on_message_event = record c.on_message_event { closed = true };
      } in
      >>-step (on_connect_do close) _ c0 c1 (λ i.
        store (close_open c.on_connect (v.connect_closed ∙ open_client) i)
          (λ e. record c0 { on_connect = e }) c0)
      ∙ >>-step (on_message_do close) _ c1 c2 (λ i.
        store (close_open c.on_message (v.message_closed ∙ open_client) i)
          (λ e. record c1 { on_message = e }) c1)
      ∙ >>-step (on_event_do close) _ c2 c3 (λ i.
        store (close_open c.on_message_event (v.event_closed ∙ open_client) i)
          (λ e. record c2 { on_message_event = e }) c2)
      ∙ (λ i.
          if (v.reconnect_closed_eq ∙ open_client) i
          then (panic, c3)
          else (ok tt, record c3 { reconnect_closed = true }))

  -- Closing an open client panics nowhere on a calm network, and closes every channel; closing a
  -- closed one does nothing.
  pub close_client-IsValid :
      (net : Net W) (c : Client W)
      → IsCalm net
      → IsValid c
      → ((close_client net c).0 ≢ panic)
        × IsValid (close_client net c).1
        × ((close_client net c).1.is_closed ≡ true)
  unfolding close_client
  close_client-IsValid net c calm v = elim (Bool-cases c.is_closed) [
    | inl done ↦ ground arith
    | inr open_client ↦ elim (Option-cases c.conn) [
      | inl missing ↦ absurd (v.has_conn missing)
      | inr (n, e) ↦ ground (
        arith,
        close_channels_open c v open_client,
        calm.calm_close n c.keys.world,
        close_open c.challenge_signature,
      )
    ]
  ]

  pub record_send_failure-IsValid : (c : Client W) → IsValid c → IsValid (record_send_failure c)
  unfolding record_send_failure
  record_send_failure-IsValid c v = ground (arith, v)

  -- A goroutine that waits takes the request.
  pub reconnect_taken :
      (target : Option Node) (c : Client W)
      → c.is_closed ≡ false
      → c.reconnect_closed ≡ false
      → c.handler ≡ waiting
      → reconnect target c ≡ (ok tt, record c { state = connecting; handler = busy target })
  unfolding reconnect
  reconnect_taken target c o r w = simp (o, r, w) refl

  -- One that is busy does not.
  pub reconnect_dropped :
      (target h : Option Node) (c : Client W)
      → c.is_closed ≡ false
      → c.reconnect_closed ≡ false
      → c.handler ≡ busy h
      → reconnect target c ≡ (ok tt, record c { state = connecting })
  unfolding reconnect
  reconnect_dropped target h c o r w = simp (o, r, w) refl

  pub close_client_done :
      (net : Net W) (c : Client W) → c.is_closed ≡ true → close_client net c ≡ (ok tt, c)
  unfolding close_client
  close_client_done net c h = simp h refl
