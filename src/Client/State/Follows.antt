-- ===== src/Client/State/Follows.antt =====
-- client.go: the connection and the requests of a client under the calls that other parts make.
use nkn_sdk_go.Base.{ℕ, ◌≡◌, refl, ◌∙◌, true, false, Bool, Option, none, some, arith, if◌then◌else◌}
use nkn_sdk_go.Base.Int.{ℤ}
use nkn_sdk_go.Base.Bytes.{Bytes}
use nkn_sdk_go.Errors.{Outcome, ok, err, panic}
use nkn_sdk_go.Action.{Action, raise, ◌>>◌}
use nkn_sdk_go.Action.Keeps.{Keeps, >>=-Keeps, continue-Keeps}
use nkn_sdk_go.Channel.{Emitter, close, receive}
use nkn_sdk_go.Client.State.{
  Client, Message, MessageEvent, Node, Net, waiting, outside, store, on_connect_do, on_message_do,
  on_event_do, challenge_do, close_reconnect, close_current, and_then, close_channels, close_client,
  reconnect, write_message, record_send_failure, handle_set_client, reconnect_check, reconnect_send,
  set_client_locked,
}

-- `d` is `c` some calls later.
pub record Follows {W : Type 0} (c d : Client W) : Type 0 where
  pub same_conn : d.conn ≡ c.conn
  pub idle_before : d.handler ≡ waiting → c.handler ≡ waiting
  pub open_before : d.is_closed ≡ false → c.is_closed ≡ false

module _ {W : Type 0} where
  pub Follows-refl : (c : Client W) → Follows c c
  Follows-refl c = record { same_conn = refl; idle_before = λ h. h; open_before = λ h. h }

  pub Follows-trans : {c d e : Client W} → Follows c d → Follows d e → Follows c e
  Follows-trans f g = record {
    same_conn = g.same_conn ∙ f.same_conn;
    idle_before = λ h. f.idle_before (g.idle_before h);
    open_before = λ h. f.open_before (g.open_before h);
  }

module _ {W : Type 0} (c : Client W) where
  pub reconnect-Follows : (target : Option Node) → Keeps (Follows c) (reconnect target)
  unfolding reconnect
  reconnect-Follows target d f =
      Follows-trans f (record {
        same_conn = ground arith;
        idle_before = ground arith;
        open_before = ground arith;
      })

  -- The same for the parts of `Reconnect` and of the reply to setClient.
  pub reconnect_check-Follows : (d : Client W) → Follows c d → Follows c (reconnect_check d).1
  unfolding reconnect_check
  reconnect_check-Follows d f = record {
    same_conn = f.same_conn;
    idle_before = f.idle_before;
    open_before = f.open_before;
  }

  pub reconnect_send-Follows : (target : Option Node) → Keeps (Follows c) (reconnect_send target)
  unfolding reconnect_send
  reconnect_send-Follows target d f =
      Follows-trans f (record {
        same_conn = ground arith;
        idle_before = ground arith;
        open_before = ground arith;
      })

  pub set_client_locked-Follows :
      (hash : Bytes) (now : ℤ) (d : Client W)
      → Follows c d
      → Follows c (set_client_locked hash now d)
  unfolding set_client_locked
  set_client_locked-Follows hash now d f =
      Follows-trans f (record {
        same_conn = ground arith;
        idle_before = ground arith;
        open_before = ground arith;
      })

  pub record_send_failure-Follows : (d : Client W) → Follows c d → Follows c (record_send_failure d)
  unfolding record_send_failure
  record_send_failure-Follows d f = record {
    same_conn = f.same_conn;
    idle_before = f.idle_before;
    open_before = f.open_before;
  }

  pub outside-Follows : {A : Type 0} (m : Action W A) → Keeps (Follows c) (outside m)
  outside-Follows m d f = record {
    same_conn = f.same_conn;
    idle_before = f.idle_before;
    open_before = f.open_before;
  }

  pub store-Follows {ℓ} :
      {E : Type ℓ} (o : Outcome E) (set : E → Client W) (d : Client W)
      → Follows c d
      → ((e : E) → Follows c (set e))
      → Follows c (store o set d).1
  store-Follows (ok e) set d f g = g e
  store-Follows (err x) set d f g = f
  store-Follows panic set d f g = f

  pub challenge_do-Follows :
      (m : Emitter (Bytes × Bytes) → Outcome (Emitter (Bytes × Bytes)))
      → Keeps (Follows c) (challenge_do m)
  challenge_do-Follows m d f = store-Follows (m d.challenge_signature) _ d f λ e. record {
    same_conn = f.same_conn;
    idle_before = f.idle_before;
    open_before = f.open_before;
  }

  pub on_connect_do-Follows :
      (m : Emitter (Option Node) → Outcome (Emitter (Option Node)))
      → Keeps (Follows c) (on_connect_do m)
  on_connect_do-Follows m d f = store-Follows (m d.on_connect) _ d f λ e. record {
    same_conn = f.same_conn;
    idle_before = f.idle_before;
    open_before = f.open_before;
  }

  on_message_do-Follows :
      (m : Emitter Message → Outcome (Emitter Message)) → Keeps (Follows c) (on_message_do m)
  on_message_do-Follows m d f = store-Follows (m d.on_message) _ d f λ e. record {
    same_conn = f.same_conn;
    idle_before = f.idle_before;
    open_before = f.open_before;
  }

  on_event_do-Follows :
      (m : Emitter MessageEvent → Outcome (Emitter MessageEvent))
      → Keeps (Follows c) (on_event_do m)
  on_event_do-Follows m d f = store-Follows (m d.on_message_event) _ d f λ e. record {
    same_conn = f.same_conn;
    idle_before = f.idle_before;
    open_before = f.open_before;
  }

  if-Follows :
      (b : Bool) (x y : Outcome (Unit {0}) × Client W)
      → Follows c x.1
      → Follows c y.1
      → Follows c (if b then x else y).1
  if-Follows true x y f g = f
  if-Follows false x y f g = g

  pub handle_set_client-Follows :
      (hash : Bytes) (now : ℤ) → Keeps (Follows c) (handle_set_client hash now)
  unfolding handle_set_client
  handle_set_client-Follows hash now d f =
      if-Follows d.is_closed _ _
        (record {
          same_conn = f.same_conn;
          idle_before = f.idle_before;
          open_before = f.open_before;
        })
        (store-Follows (receive d.on_connect d.node) _ _
          (record {
            same_conn = f.same_conn;
            idle_before = f.idle_before;
            open_before = f.open_before;
          })
          λ e. record {
            same_conn = f.same_conn;
            idle_before = f.idle_before;
            open_before = f.open_before;
          })

  close_reconnect-Follows : Keeps (Follows c) close_reconnect
  close_reconnect-Follows d f =
      Follows-trans f (record {
        same_conn = ground arith;
        idle_before = ground arith;
        open_before = ground arith;
      })

  -- A call on the connection, which is a panic where there is none.
  on_conn-Follows :
      (o : Option ℕ) (k : ℕ → Outcome (Unit {0}) × Client W) (d : Client W)
      → Follows c d
      → ((n : ℕ) → Follows c (k n).1)
      → Follows c
          (elim o as (λ x. Outcome (Unit {0}) × Client W) [ none ↦ (panic, d) | some n ↦ k n ]).1
  on_conn-Follows none k d f g = f
  on_conn-Follows (some n) k d f g = g n

  close_current-Follows : (net : Net W) → Keeps (Follows c) (close_current net)
  close_current-Follows net d f =
      on_conn-Follows d.conn _ d f λ n. outside-Follows (net.close_conn n) d f

  -- What `writeMessage` does after the write.
  after_write-Follows :
      (o : Outcome (Unit {0})) (d : Client W)
      → Follows c d
      → Follows c
          (elim o as (λ x. Outcome (Unit {0}) × Client W) [
            | ok u ↦ (ok tt, d)
            | err e ↦ (do reconnect none; raise e) d
            | panic ↦ (panic, d)
          ]).1
  after_write-Follows (ok u) d f = f
  after_write-Follows (err e) d f =
      >>=-Keeps (Follows c) (reconnect none) _ (reconnect-Follows none) (λ u t g. g) d f
  after_write-Follows panic d f = f

  pub write_message-Follows :
      (net : Net W) (buf : Bytes) → Keeps (Follows c) (write_message net buf)
  unfolding write_message
  write_message-Follows net buf d f = on_conn-Follows d.conn _ d f λ n.
      after_write-Follows (net.write n buf d.keys.world).0 (outside (net.write n buf) d).1
        (outside-Follows (net.write n buf) d f)

  close_channels-Follows : Keeps (Follows c) close_channels
  unfolding close_channels
  close_channels-Follows d f =
      continue-Keeps (Follows c) _ _ _
        (on_connect_do-Follows close _
          (record { same_conn = f.same_conn; idle_before = f.idle_before; open_before = λ h. cc }))
        λ u. >>=-Keeps (Follows c) (on_message_do close) _ (on_message_do-Follows close) λ v.
          >>=-Keeps (Follows c) (on_event_do close) _ (on_event_do-Follows close)
            λ x. close_reconnect-Follows

  and_then-Follows :
      (r : Outcome (Unit {0}) × Client W) (k : Action (Client W) (Unit {0}))
      → Keeps (Follows c) k
      → Follows c r.1
      → Follows c (and_then (λ d. r) k r.1).1
  and_then-Follows (ok u, d) k g f = g d f
  and_then-Follows (err e, d) k g f = >>=-Keeps (Follows c) k _ g (λ u t h. h) d f
  and_then-Follows (panic, d) k g f = f

  pub close_client-Follows : (net : Net W) → Keeps (Follows c) (close_client net)
  unfolding close_client close_channels
  close_client-Follows net d f = if-Follows d.is_closed _ _ f (
      >>=-Keeps (Follows c) close_channels _ close_channels-Follows
        (λ u t g.
          and_then-Follows (close_current net t) (challenge_do close) (challenge_do-Follows close)
            (close_current-Follows net t g))
        d f)
