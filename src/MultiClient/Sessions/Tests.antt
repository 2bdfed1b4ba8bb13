-- ===== src/MultiClient/Sessions/Tests.antt =====
-- multiclient.go: the theorems about sessions at concrete messages, with sessions that are numbered as
-- they are made, and a world that counts them.
use nkn_sdk_go.Base.{ℕ, suc, ◌≡◌, refl, false, [], ◌∷◌, ◌++◌, length, ltb, replicate, if◌then◌else◌}
use nkn_sdk_go.Base.Int.{pos, negsuc}
use nkn_sdk_go.Base.Bytes.{Bytes, text, bytes_eq}
use nkn_sdk_go.Errors.{ok}
use nkn_sdk_go.Identifier.{remove_identifier, split_dot}
use nkn_sdk_go.MultiClient.Sessions.{
  Ncp, Sessions, should_accept, handle_session_msg, start_session, open_session, hand_on,
  sending_ids,
}

abbrev toy_ncp : Ncp ℕ
toy_ncp = record {
  Pattern = Bytes;
  compile = λ b. ok b;
  matches = bytes_eq;
  new_session = λ addr id ids w. (ok w, suc w);
  receive_with = λ n local remote b w. (ok tt, w);
  dial = λ n w. (ok tt, w);
  accept = λ n w. (ok tt, w);
  random_bytes = λ w. (ok (w ∷ []), w);
}

abbrev idle : Sessions toy_ncp
idle = record {
  sessions = [];
  accept_addrs = text "bob" ∷ [];
  accept_session = [];
  client_ids = negsuc 0 ∷ pos 0 ∷ [];
  world = 5;
}

abbrev busy : Sessions toy_ncp
busy = record idle { accept_session = replicate 128 3 }

abbrev bob : Bytes
bob = text "bob"

-- What the first message of session 5 leaves behind.
abbrev after : Sessions toy_ncp → Sessions toy_ncp
after s = record s {
  sessions = (text "bobs", 5) ∷ [];
  accept_session =
      if ltb (length s.accept_session) 128 then s.accept_session ++ 5 ∷ [] else s.accept_session;
  world = 6;
}

bob_base : remove_identifier bob ≡ (bob, [])
unfolding remove_identifier split_dot
bob_base = refl

unaccepted : handle_session_msg toy_ncp [] bob (text "s") [] busy ≡ (ok tt, after busy)
unfolding handle_session_msg start_session open_session hand_on should_accept sending_ids
    remove_identifier split_dot
unaccepted = refl

not_allowed : should_accept toy_ncp idle.accept_addrs (remove_identifier (text "eve")).0 ≡ false
unfolding should_accept remove_identifier split_dot
not_allowed = refl
