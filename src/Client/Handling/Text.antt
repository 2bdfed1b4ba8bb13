-- ===== src/Client/Handling/Text.antt =====
-- client.go: what the JSON messages of a node can do to a client.
use nkn_sdk_go.Base.{
  ◌≡◌, ◌≢◌, refl, ap, ◌∙◌, subst, true, false, ◌++◌, Option, none, some, if◌then◌else◌, arith,
}
use nkn_sdk_go.Base.Int.{ℤ}
use nkn_sdk_go.Base.Bytes.{Bytes, Dict, lookup, bytes_eq, bytes_eq_sound, text}
use nkn_sdk_go.Errors.{Outcome, ok, err, panic, coded}
use nkn_sdk_go.Action.{continue, raise}
use nkn_sdk_go.Client.State.{Client, Net, outside, close_client}
use nkn_sdk_go.Client.State.Invariant.{IsValid, IsCalm, close_client-IsValid}
use nkn_sdk_go.Client.Handling.{
  Json, Reader, on_client, ignored, same_code, member, set_client_action, update_action,
  auth_challenge_action, handle_error, answer_challenge, handle_action, handle_text,
}
use nkn_sdk_go.Client.Handling.Steps.{
  member_of_there, member_of_ok, raise-Good, lift-Good, continue-Good, challenge_do-Good,
  handle_set_client-Good, update-Good, if-Good, Good, IsOpen,
}

-- The code for JSON, hexadecimals and signatures returns or gives an error, and never panics.
pub record JsonIsCalm {W : Type 0} (json : Json W) : Type 0 where
  pub calm_parse : (b : Bytes) → json.parse b ≢ panic
  pub calm_string : (b : Bytes) → json.as_string b ≢ panic
  pub calm_code : (b : Bytes) → json.as_code b ≢ panic
  pub calm_node : (b : Bytes) → json.as_node b ≢ panic
  pub calm_hash : (b : Bytes) → json.as_block_hash b ≢ panic
  pub calm_hex : (b : Bytes) → json.decode_hex b ≢ panic
  pub calm_salt : (w : W) → (json.salt w).0 ≢ panic
  pub calm_sign : (b : Bytes) → json.sign_hash b ≢ panic

module _ {W : Type 0} (json : Json W) (net : Net W) where
  open json use {parse, as_string, as_code, success, wrong_node}

  -- The member, besides the action and the error code, that the handling of a message reads.
  abbrev pub needed : ℤ → Bytes → Option Bytes
  needed code action =
      if same_code code success
      then (if bytes_eq action set_client_action
          then some (text "Result")
          else if bytes_eq action update_action
          then some (text "Result")
          else if bytes_eq action auth_challenge_action
          then some (text "Challenge")
          else none)
      else if same_code code wrong_node
      then some (text "Result")
      else none

  abbrev pub Has : Dict Bytes → Option Bytes → Type 0
  Has members none = Unit
  Has members (some name) = lookup name members ≢ none

  -- All members that are read of a message are there.
  pub record IsWhole (members : Dict Bytes) : Type 0 where
    pub action_there : lookup (text "Action") members ≢ none
    pub error_there : lookup (text "Error") members ≢ none
    pub rest_there :
        (x y action : Bytes) (code : ℤ)
        → lookup (text "Action") members ≡ some x
        → as_string x ≡ ok action
        → lookup (text "Error") members ≡ some y
        → as_code y ≡ ok code
        → Has members (needed code action)

  -- The message says that `setClient` failed, for another reason than the wrong node.
  abbrev pub IsRefusal : Bytes → Type 0
  IsRefusal content =
      (members : Dict Bytes) × (x : Bytes) × (y : Bytes) × (code : ℤ) × (parse content ≡ ok members)
      × (lookup (text "Action") members ≡ some x)
      × (as_string x ≡ ok set_client_action)
      × (lookup (text "Error") members ≡ some y)
      × (as_code y ≡ ok code)
      × (same_code code success ≡ false)
      × (same_code code wrong_node ≡ false)

  salt-IsOpen : (r : Reader W) → IsOpen r → IsOpen (on_client (outside json.salt) r).1
  salt-IsOpen r (v, open_client) = (ground (arith, v), open_client)

  answer_challenge-Good :
      (R : Type 0) (members : Dict Bytes) (r : Reader W)
      → JsonIsCalm json
      → IsOpen r
      → lookup (text "Challenge") members ≢ none
      → Good R (answer_challenge json net members r)
  unfolding answer_challenge
  answer_challenge-Good R members r calm v there =
      lift-Good R (member (text "Challenge") members) _ r v (member_of_there _ there) λ raw e.
        lift-Good R (as_string raw) _ r v (calm.calm_string raw) λ challenge e1.
          lift-Good R (json.decode_hex challenge) _ r v (calm.calm_hex challenge) λ content e2.
            continue-Good R (on_client (outside json.salt) r) _ (calm.calm_salt _) (salt-IsOpen r v)
              λ client_salt.
                lift-Good R (json.sign_hash (content ++ client_salt)) _
                  (on_client (outside json.salt) r).1 (salt-IsOpen r v) (calm.calm_sign _)
                  λ signature e3.
                    challenge_do-Good R (client_salt, signature) (on_client (outside json.salt) r).1
                      (salt-IsOpen r v)

  needed_set :
      (code : ℤ) (action : Bytes)
      → same_code code success ≡ true
      → bytes_eq action set_client_action ≡ true
      → needed code action ≡ some (text "Result")
  needed_set code action h e = simp (h, e) refl

  needed_update :
      (code : ℤ) (action : Bytes)
      → same_code code success ≡ true
      → bytes_eq action set_client_action ≡ false
      → bytes_eq action update_action ≡ true
      → needed code action ≡ some (text "Result")
  needed_update code action h e e1 = simp (h, e, e1) refl

  needed_challenge :
      (code : ℤ) (action : Bytes)
      → same_code code success ≡ true
      → bytes_eq action set_client_action ≡ false
      → bytes_eq action update_action ≡ false
      → bytes_eq action auth_challenge_action ≡ true
      → needed code action ≡ some (text "Challenge")
  needed_challenge code action h e e1 e2 = simp (h, e, e1, e2) refl

  needed_node :
      (code : ℤ) (action : Bytes)
      → same_code code success ≡ false
      → same_code code wrong_node ≡ true
      → needed code action ≡ some (text "Result")
  needed_node code action h e = simp (h, e) refl

  handle_action-Good :
      (R : Type 0) (now code : ℤ) (action : Bytes) (members : Dict Bytes) (r : Reader W)
      → JsonIsCalm json
      → IsOpen r
      → same_code code success ≡ true
      → Has members (needed code action)
      → Good R (handle_action json net now action members r)
  unfolding handle_action
  handle_action-Good R now code action members r calm v fine there =
      if-Good R (bytes_eq action set_client_action) _ _ r
        (λ e.
          lift-Good R (member (text "Result") members) _ r v
            (member_of_there _ (subst (Has members) (needed_set code action fine e) there))
            λ raw e1.
              lift-Good R (json.as_block_hash raw) _ r v (calm.calm_hash raw)
                λ hash e2. handle_set_client-Good R hash now r v)
        (λ e.
          if-Good R (bytes_eq action update_action) _ _ r
            (λ e1.
              lift-Good R (member (text "Result") members) _ r v
                (member_of_there _
                  (subst (Has members) (needed_update code action fine e e1) there))
                λ raw e2.
                  lift-Good R (as_string raw) _ r v (calm.calm_string raw)
                    λ hash e3. update-Good R hash r v)
            (λ e1.
              if-Good R (bytes_eq action auth_challenge_action) _ _ r
                (λ e2.
                  answer_challenge-Good R members r calm v
                    (subst (Has members) (needed_challenge code action fine e e1 e2) there))
                (λ e2. (λ h. cc, v.0, λ h. cc))))

  -- A refused `setClient` closes the client, whose error is ignored.
  refuse-Good :
      (R : Type 0) (code : ℤ) (s : Outcome (Unit {0}) × Client W) (r : Reader W)
      → R
      → s.0 ≢ panic
      → IsValid s.1
      → Good R (
          continue
            ((ignored s).0, record r { inbox = record r.inbox { client = (ignored s).1 } })
            (λ u. raise (coded code)))
  refuse-Good R code (ok u, c) r why calm v = (λ h. cc, v, λ h. why)
  refuse-Good R code (err e, c) r why calm v = (λ h. cc, v, λ h. why)
  refuse-Good R code (panic, c) r why calm v = absurd (calm refl)

  handle_error-Good :
      (R : Type 0) (code : ℤ) (action : Bytes) (members : Dict Bytes) (r : Reader W)
      → IsCalm net
      → JsonIsCalm json
      → IsOpen r
      → same_code code success ≡ false
      → Has members (needed code action)
      → (same_code code wrong_node ≡ false → bytes_eq action set_client_action ≡ true → R)
      → Good R (handle_error json net code action members r)
  unfolding handle_error
  handle_error-Good R code action members r calm_net calm v fails there why =
      if-Good R (same_code code wrong_node) _ _ r
        (λ e.
          lift-Good R (member (text "Result") members) _ r v
            (member_of_there _ (subst (Has members) (needed_node code action fails e) there))
            λ raw e1.
              lift-Good R (json.as_node raw) _ r v (calm.calm_node raw)
                λ target e2. (λ h. cc, v.0, λ h. cc (v.1, h)))
        (λ e.
          if-Good R (bytes_eq action set_client_action) _ _ r
            (λ e1.
              let (fine, v', done) = close_client-IsValid net r.inbox.client calm_net v.0 in
              refuse-Good R code (close_client net r.inbox.client) r (why e e1) fine v')
            (λ e1. raise-Good R r code v))

  -- A JSON message that has the members that its handling reads makes no panic in an open client that is
  -- well formed, on a network and with a JSON package that do not panic, whatever the message says, and
  -- also when it is no JSON. The client stays well formed, and is closed only by a refused `setClient`.
  pub handle_text-IsSafe :
      (now : ℤ) (content : Bytes) (r : Reader W)
      → IsCalm net
      → JsonIsCalm json
      → IsValid r.inbox.client
      → r.inbox.client.is_closed ≡ false
      → ((members : Dict Bytes) → parse content ≡ ok members → IsWhole members)
      → ((handle_text json net now content r).0 ≢ panic)
        × IsValid (handle_text json net now content r).1.inbox.client
        × ((handle_text json net now content r).1.inbox.client.is_closed ≡ true → IsRefusal content)
  unfolding handle_text
  handle_text-IsSafe now content r calm_net calm valid open_client whole =
      let v : IsOpen r = (valid, open_client) in
      let R = IsRefusal content in
      lift-Good R (parse content) _ r v (calm.calm_parse content) λ members e.
        let w = whole members e in
        lift-Good R (member (text "Action") members) _ r v (member_of_there _ w.action_there)
          λ x e1. lift-Good R (as_string x) _ r v (calm.calm_string x) λ action e2.
            lift-Good R (member (text "Error") members) _ r v (member_of_there _ w.error_there)
              λ y e3. lift-Good R (as_code y) _ r v (calm.calm_code y) λ code e4.
                let there =
                  w.rest_there x y action code (member_of_ok _ x e1) e2 (member_of_ok _ y e3) e4 in
                if-Good R (same_code code success) _ _ r
                  (λ fine. handle_action-Good R now code action members r calm v fine there)
                  (λ fails.
                    handle_error-Good R code action members r calm_net calm v fails there
                      λ right_node refused. (
                        members,
                        x,
                        y,
                        code,
                        e,
                        member_of_ok _ x e1,
                        e2
                            ∙ ap (λ (t : Bytes). ok t)
                                (bytes_eq_sound action set_client_action refused),
                        member_of_ok _ y e3,
                        e4,
                        fails,
                        right_node,
                      ))

  -- A message without an action makes the client panic.
  pub handle_text_panics :
      (now : ℤ) (content : Bytes) (members : Dict Bytes) (r : Reader W)
      → parse content ≡ ok members
      → lookup (text "Action") members ≡ none
      → (handle_text json net now content r).0 ≡ panic
  unfolding handle_text
  handle_text_panics now content members r h missing = ground (arith, h, missing)
