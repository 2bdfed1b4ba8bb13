-- ===== src/Client/Link/Turns/Parts.antt =====
-- client.go: the parts of `Reconnect`, of the reply to setClient and of the answer to a challenge, when
-- they are turns of their own.
use nkn_sdk_go.Base.{◌≡◌, Bool, true, false}
use nkn_sdk_go.Errors.{panic}
use nkn_sdk_go.Action.Keeps.{Keeps}
use nkn_sdk_go.Channel.{receive, try_send}
use nkn_sdk_go.Client.State.{Client, Net}
use nkn_sdk_go.Client.State.Invariant.{IsValid, IsCalm}
use nkn_sdk_go.Client.State.Lifecycle.{
  step, step-IsValid, tests_reconnect, sends_reconnect, sets_client, announces, sends_challenge,
}
use nkn_sdk_go.Client.State.Follows.{
  Follows, reconnect_check-Follows, reconnect_send-Follows, set_client_locked-Follows,
  on_connect_do-Follows, challenge_do-Follows,
}
use nkn_sdk_go.Client.Link.{
  Part, tests_part, sends_part, set_client_part, announce_part, challenge_part,
}
use nkn_sdk_go.Client.Link.Turns.{take_part}

-- A part keeps the connection and the request, and opens no closed client.
pub take_part-Follows :
    {W : Type 0} (c : Client W) (net : Net W) (p : Part) → Keeps (Follows c) (take_part net p)
unfolding take_part step
take_part-Follows c net tests_part d f = reconnect_check-Follows c d f
take_part-Follows c net (sends_part target) d f = reconnect_send-Follows c target d f
take_part-Follows c net (set_client_part hash now) d f = set_client_locked-Follows c hash now d f
take_part-Follows c net (announce_part target) d f =
    on_connect_do-Follows c (λ e. receive e target) d f
take_part-Follows c net (challenge_part salt signature) d f =
    challenge_do-Follows c (λ e. try_send e (salt, signature)) d f

-- The part is a send with no lock held.
abbrev pub is_part_send : Part → Bool
is_part_send tests_part = false
is_part_send (sends_part target) = true
is_part_send (set_client_part hash now) = false
is_part_send (announce_part target) = true
is_part_send (challenge_part salt signature) = true

-- A part leaves a well-formed client, and panics only if it is such a send.
pub take_part-IsValid :
    {W : Type 0} (net : Net W) (p : Part) (c : Client W)
    → IsCalm net
    → IsValid c
    → ((take_part net p c).0 ≡ panic → is_part_send p ≡ true) × IsValid (take_part net p c).1
unfolding take_part
take_part-IsValid net tests_part c calm v =
    let (late, v', final) = step-IsValid net tests_reconnect c calm v in ((λ h. (late h).0), v')
take_part-IsValid net (sends_part target) c calm v =
    let (late, v', final) = step-IsValid net (sends_reconnect target) c calm v in
    ((λ h. (late h).0), v')
take_part-IsValid net (set_client_part hash now) c calm v =
    let (late, v', final) = step-IsValid net (sets_client hash now) c calm v in
    ((λ h. (late h).0), v')
take_part-IsValid net (announce_part target) c calm v =
    let (late, v', final) = step-IsValid net (announces target) c calm v in ((λ h. (late h).0), v')
take_part-IsValid net (challenge_part salt signature) c calm v =
    let (late, v', final) = step-IsValid net (sends_challenge salt signature) c calm v in
    ((λ h. (late h).0), v')
