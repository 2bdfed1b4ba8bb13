-- ===== src/MultiClient/Sending/Trace.antt =====
-- multiclient.go: calls of `sendWithClient` one after the other, as a relation.
use nkn_sdk_go.Base.{◌≡◌, Bool, List, [], ◌∷◌, Option, none, some}
use nkn_sdk_go.Base.Int.{ℤ}
use nkn_sdk_go.Base.Bytes.{Bytes}
use nkn_sdk_go.Errors.{Error, Outcome, ok, err}
use nkn_sdk_go.Action.{Action}
use nkn_sdk_go.Message.{Nacl, Codec, Payload}
use nkn_sdk_go.Client.State.{Net}
use nkn_sdk_go.Client.Outbound.{Signing}
use nkn_sdk_go.MultiClient.Sending.{MultiClient, send_with_client}

-- What a call returns that ends with this error, if any.
abbrev pub ended : Option Error → Outcome (Unit {0})
ended none = ok tt
ended (some e) = err e

-- The clients with the errors of their calls.
abbrev pub failures : List ℤ → List Error → List (ℤ × Option Error)
failures [] es = []
failures (i ∷ is) [] = []
failures (i ∷ is) (e ∷ es) = (i, some e) ∷ failures is es

module _ {W : Type 0} (nacl : Nacl W) (codec : Codec) (secret : Bytes) (signing : Signing W)
    (net : Net W) (process_dests : List Bytes → Action W (List Bytes)) (dests : List Bytes)
    (payload : Payload) (encrypted : Bool) (holding : ℤ) where
  -- From `m` to `m'`, each client of the list was called, in order, and its call ended like that.
  abbrev pub Sends : List (ℤ × Option Error) → MultiClient W → MultiClient W → Type 0
  Sends [] m m' = m ≡ m'
  Sends ((i, x) ∷ ts) m m' =
      (c : MultiClient W) × (send_with_client nacl codec secret signing net process_dests i dests
          payload encrypted holding m
        ≡ (ended x, c))
      × Sends ts c m'
