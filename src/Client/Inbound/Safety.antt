-- ===== src/Client/Inbound/Safety.antt =====
-- client.go: an open client that gets inbound messages.
use nkn_sdk_go.Base.{◌≡◌, false, arith}
use nkn_sdk_go.Client.State.{Client}
use nkn_sdk_go.Client.State.Invariant.{IsValid}
use nkn_sdk_go.Client.Inbound.Stable.{IsStable}

-- The client is open and well formed.
pub record IsOpen {W : Type 0} (c : Client W) : Type 0 where
  pub valid : IsValid c
  pub open_client : c.is_closed ≡ false

pub IsOpen-IsStable : {W : Type 0} → IsStable (IsOpen {W = W})
IsOpen-IsStable = record {
  keys_kept = λ c k h. ground (arith, h);
  messages_kept = λ c e same h. ground (arith, h, same);
  events_kept = λ c e same h. ground (arith, h, same);
}
