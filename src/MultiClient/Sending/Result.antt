-- ===== src/MultiClient/Sending/Result.antt =====
-- multiclient.go: when `send` returns an error.
use nkn_sdk_go.Base.{
  suc, ◌≡◌, refl, sym, ap, subst, ◌∙◌, Bool, true, false, List, [], ◌∷◌, ◌++◌, length, append_assoc,
  append-nil,
}
use nkn_sdk_go.Base.Int.{ℤ}
use nkn_sdk_go.Base.Bytes.{Bytes}
use nkn_sdk_go.Errors.{Error, Outcome, ok, err, panic, ok-injective}
use nkn_sdk_go.Action.{Action}
use nkn_sdk_go.Message.{Nacl, Codec, Payload}
use nkn_sdk_go.Client.State.{Net}
use nkn_sdk_go.Client.Outbound.{Signing}
use nkn_sdk_go.MultiClient.Policy.{clients_by_policy}
use nkn_sdk_go.MultiClient.Sending.{
  MultiClient, send_with_client, count, then_rest, send_each, result_of, send, failed,
}
use nkn_sdk_go.MultiClient.Sending.Trace.{Sends, failures}

module _ {W : Type 0} (nacl : Nacl W) (codec : Codec) (secret : Bytes) (signing : Signing W)
    (net : Net W) (process_dests : List Bytes → Action W (List Bytes)) where
  -- The rest of the loop, from a tally.
  abbrev Rest : Type 0
  Rest = Bool × List Error → MultiClient W → Outcome (Bool × List Error) × MultiClient W

  -- Without a client that has sent, each client of `is` was called and failed, and `all` has its error.
  abbrev AllFailed :
      List Bytes
      → Payload
      → Bool
      → ℤ
      → List ℤ
      → Bool
      → List Error
      → List Error
      → MultiClient W
      → MultiClient W
      → Type 0
  AllFailed dests payload encrypted holding is sent errs all m m' =
      (more : List Error) × (sent ≡ false)
      × (all ≡ errs ++ more)
      × (length more ≡ length is)
      × Sends nacl codec secret signing net process_dests dests payload encrypted holding
          (failures is more) m m'

  then_rest-AllFailed :
      (dests : List Bytes) (payload : Payload) (encrypted : Bool) (holding : ℤ) (i : ℤ)
      (is : List ℤ) (o : Outcome (Unit {0})) (sent : Bool) (errs all : List Error) (f : Rest)
      (m c m' : MultiClient W)
      → send_with_client nacl codec secret signing net process_dests i dests payload encrypted
          holding m
        ≡ (o, c)
      → ((b : Bool) (es : List Error)
          → f (b, es) c ≡ (ok (false, all), m')
          → AllFailed dests payload encrypted holding is b es all c m')
      → then_rest nacl codec secret signing net process_dests
          (count nacl codec secret signing net process_dests o (sent, errs))
          f
          c
        ≡ (ok (false, all), m')
      → AllFailed dests payload encrypted holding (i ∷ is) sent errs all m m'
  then_rest-AllFailed dests payload encrypted holding i is (ok u) sent errs all f m c m' p ih h =
      let (more, fresh, same, len, calls) = ih true errs h in absurd (cc fresh)
  then_rest-AllFailed dests payload encrypted holding i is (err e) sent errs all f m c m' p ih h =
      let (more, fresh, same, len, calls) = ih sent (errs ++ e ∷ []) h in
      (e ∷ more, fresh, same ∙ append_assoc errs (e ∷ []) more, ap suc len, (c, p, calls))
  then_rest-AllFailed dests payload encrypted holding i is panic sent errs all f m c m' p ih h = cc

  send_each-AllFailed :
      (is : List ℤ) (dests : List Bytes) (payload : Payload) (encrypted : Bool) (holding : ℤ)
      (sent : Bool) (errs all : List Error) (m m' : MultiClient W)
      → send_each nacl codec secret signing net process_dests is dests payload encrypted holding
          (sent, errs)
          m
        ≡ (ok (false, all), m')
      → AllFailed dests payload encrypted holding is sent errs all m m'
  unfolding send_each
  send_each-AllFailed [] dests payload encrypted holding sent errs all m m' h =
      let same = ok-injective (λ i. (h i).0) in
      ([], (λ i. (same i).0), sym (λ i. (same i).1) ∙ sym (append-nil errs), refl, (λ i. (h i).1))
  send_each-AllFailed (i ∷ is) dests payload encrypted holding sent errs all m m' h =
      let r =
        send_with_client nacl codec secret signing net process_dests i dests payload encrypted
          holding m in
      then_rest-AllFailed dests payload encrypted holding i is r.0 sent errs all _ m r.1 m' refl
        (λ b es. send_each-AllFailed is dests payload encrypted holding b es all _ m') h

  failed_result :
      (o : Outcome (Bool × List Error)) (all : List Error)
      → result_of nacl codec secret signing net process_dests o ≡ ok (failed all)
      → o ≡ ok (false, all)
  failed_result (ok (true, es)) all h = cc
  failed_result (ok (false, es)) all h = cc
  failed_result (err e) all h = cc
  failed_result panic all h = cc

  -- `send` returns errors only if every client that the policy chose was called, in order, and has failed;
  -- the errors are theirs, one for each of them in the same order.
  pub send-AllFailed :
      (now : ℤ) (dests : List Bytes) (payload : Payload) (encrypted : Bool) (holding : ℤ)
      (all : List Error) (m m' : MultiClient W)
      → send nacl codec secret signing net process_dests now dests payload encrypted holding m
        ≡ (ok (failed all), m')
      → (length all ≡ length (clients_by_policy m.policy now m.clients))
        × Sends nacl codec secret signing net process_dests dests payload encrypted holding
            (failures (clients_by_policy m.policy now m.clients) all)
            m
            m'
  unfolding send
  send-AllFailed now dests payload encrypted holding all m m' h =
      let ids = clients_by_policy m.policy now m.clients in
      let r =
        send_each nacl codec secret signing net process_dests ids dests payload encrypted holding
          (false, []) m in
      let (more, fresh, same, len, calls) =
        send_each-AllFailed ids dests payload encrypted holding false [] all m m'
          (λ i. (failed_result r.0 all (λ j. (h j).0) i, (h i).1)) in
      subst
        (λ es.
          (length es ≡ length ids)
          × Sends nacl codec secret signing net process_dests dests payload encrypted holding
              (failures ids es) m m')
        (sym same) (len, calls)
