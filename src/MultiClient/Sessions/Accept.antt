-- ===== src/MultiClient/Sessions/Accept.antt =====
-- multiclient.go: which messages open a session, and which sessions wait to be accepted.
use nkn_sdk_go.Base.{
  ◌≡◌, refl, sym, ap, ◌∙◌, subst, true, false, [], ◌∷◌, ◌++◌, none, some, ℕ, length, ltb,
  Bool-cases, inl, inr, if◌then◌else◌, arith,
}
use nkn_sdk_go.Base.Bytes.{Bytes, lookup, insert, lookup-insert, bytes_eq, bytes_eq_refl}
use nkn_sdk_go.Errors.{Outcome, ok, err, addr_not_allowed}
use nkn_sdk_go.Action.{Action, >>=-eq-ok}
use nkn_sdk_go.Identifier.{remove_identifier}
use nkn_sdk_go.MultiClient.Sessions.{
  Ncp, Sessions, session_key, accept_session_buf_size, sending_ids, in_world, should_accept, offer,
  hand_on, open_session, start_session, handle_session_msg,
}

module _ {W : Type 0} (ncp : Ncp W) where
  open ncp use {new_session, receive_with}

  -- The key of the session of a message.
  abbrev pub key_of : Bytes → Bytes → Bytes
  key_of src session_id = session_key (remove_identifier src).0 session_id

  -- A message of no session, from an address that nothing allows, is refused, and changes nothing.
  pub handle_session_msg_refused :
      (local src session_id content : Bytes) (s : Sessions ncp)
      → lookup (key_of src session_id) s.sessions ≡ none
      → should_accept ncp s.accept_addrs (remove_identifier src).0 ≡ false
      → handle_session_msg ncp local src session_id content s ≡ (err addr_not_allowed, s)
  unfolding handle_session_msg start_session
  handle_session_msg_refused local src session_id content s l a = rw (l, a) refl

  -- A message of a session that is there goes to that session, whatever is allowed, and opens none.
  pub handle_session_msg_known :
      (local src session_id content : Bytes) (s : Sessions ncp) (n : ℕ)
      → lookup (key_of src session_id) s.sessions ≡ some n
      → handle_session_msg ncp local src session_id content s
        ≡ hand_on ncp local (remove_identifier src).1 content n s
  unfolding handle_session_msg
  handle_session_msg_known local src session_id content s n l = rw l refl

  -- What a message leaves behind that has opened session `n`.
  pub record Opened (key : Bytes) (n : ℕ) (s t : Sessions ncp) : Type 0 where
    pub entered : lookup key t.sessions ≡ some n
    pub others : (k : Bytes) → bytes_eq key k ≡ false → lookup k t.sessions ≡ lookup k s.sessions
    pub waiting : t.accept_session ≡ (
        if ltb (length s.accept_session) accept_session_buf_size
        then s.accept_session ++ n ∷ []
        else s.accept_session)
    pub same_addrs : t.accept_addrs ≡ s.accept_addrs

  hand_on_waiting :
      (local remote content : Bytes) (n : ℕ) (s : Sessions ncp)
      → (hand_on ncp local remote content n s).1.accept_session ≡ s.accept_session
  unfolding hand_on
  hand_on_waiting local remote content n s = refl

  in_world-eq-ok :
      {A : Type 0} (m : Action W A) (s : Sessions ncp) {a : A} {t : Sessions ncp}
      → in_world ncp m s ≡ (ok a, t)
      → (w : W) × (t ≡ record s { world = w })
  in_world-eq-ok m s h = ((m s.world).1, λ i. (sym h i).1)

  offered-Opened :
      (key : Bytes) (n : ℕ) (s : Sessions ncp) (w : W)
      → Opened key n s (offer ncp n (record s { sessions = insert key n s.sessions; world = w }))
  offered-Opened key n s w =
      elim (Bool-cases (ltb (length s.accept_session) accept_session_buf_size)) [
        | inl e ↦ simp e (record {
          entered = ground (arith, lookup-insert key key n s.sessions, bytes_eq_refl key);
          others = λ k d. ground (arith, lookup-insert key k n s.sessions, d);
          waiting = ground (arith, e);
          same_addrs = refl;
        })
        | inr e ↦ simp e (record {
          entered = ground (arith, lookup-insert key key n s.sessions, bytes_eq_refl key);
          others = λ k d. ground (arith, lookup-insert key k n s.sessions, d);
          waiting = ground (arith, e);
          same_addrs = refl;
        })
      ]

  open_session-Opened :
      (local remote_addr remote_id session_id content : Bytes) (s t : Sessions ncp)
      → open_session ncp local remote_addr remote_id session_id content s ≡ (ok tt, t)
      → (n : ℕ) × Opened (session_key remote_addr session_id) n s t
  unfolding open_session hand_on
  open_session-Opened local remote_addr remote_id session_id content s t h =
      let key = session_key remote_addr session_id in
      let (n, s1, h1, r1) =
        >>=-eq-ok
          (λ s. in_world ncp (new_session remote_addr session_id (sending_ids s.client_ids)) s) _ s
          h in
      let (w1, e1) =
        in_world-eq-ok (new_session remote_addr session_id (sending_ids s.client_ids)) s h1 in
      let s2 : Sessions ncp = record s1 { sessions = insert key n s1.sessions } in
      let (u, s3, h3, r3) =
        >>=-eq-ok (in_world ncp (receive_with n local remote_id content)) _ s2 r1 in
      let (w3, e3) = in_world-eq-ok (receive_with n local remote_id content) s2 h3 in
      let last : offer ncp n (record s { sessions = insert key n s.sessions; world = w3 }) ≡ t =
        (λ i. offer ncp n (
          sym (e3 ∙ (λ j. record (e1 j) { sessions = insert key n (e1 j).sessions; world = w3 }))
            i))
        ∙ (λ i. (r3 i).1) in
      (n, subst (Opened key n s) last (offered-Opened key n s w3))

  handle_session_msg_allowed :
      (local src session_id content : Bytes) (s : Sessions ncp)
      → lookup (key_of src session_id) s.sessions ≡ none
      → should_accept ncp s.accept_addrs (remove_identifier src).0 ≡ true
      → handle_session_msg ncp local src session_id content s
        ≡ open_session ncp local
            (remove_identifier src).0
            (remove_identifier src).1
            session_id
            content
            s
  unfolding handle_session_msg start_session
  handle_session_msg_allowed local src session_id content s l a = rw (l, a) refl

  pub handle_session_msg-Opened :
      (local src session_id content : Bytes) (s t : Sessions ncp)
      → lookup (key_of src session_id) s.sessions ≡ none
      → handle_session_msg ncp local src session_id content s ≡ (ok tt, t)
      → (should_accept ncp s.accept_addrs (remove_identifier src).0 ≡ true)
        × ((n : ℕ) × Opened (key_of src session_id) n s t)
  handle_session_msg-Opened local src session_id content s t l h =
      let (remote_addr, remote_id) = remove_identifier src in
      elim (Bool-cases (should_accept ncp s.accept_addrs remote_addr)) [
        | inl a ↦ (
          a,
          open_session-Opened local remote_addr remote_id session_id content s t
              (sym (handle_session_msg_allowed local src session_id content s l a) ∙ h),
        )
        | inr a ↦ cc (handle_session_msg_refused local src session_id content s l a, h)
      ]

  -- When the buffer of sessions that wait is full, a message of no session still opens one: it is entered
  -- but does not wait, and a further message of that session goes to it and lets it wait no more, so it is
  -- never given to `AcceptSession`.
  pub handle_session_msg_unaccepted :
      (local src session_id content : Bytes) (s t : Sessions ncp)
      → lookup (key_of src session_id) s.sessions ≡ none
      → ltb (length s.accept_session) accept_session_buf_size ≡ false
      → handle_session_msg ncp local src session_id content s ≡ (ok tt, t)
      → (t.accept_session ≡ s.accept_session)
        × ((local' content' : Bytes)
            → (handle_session_msg ncp local' src session_id content' t).1.accept_session
              ≡ s.accept_session)
  handle_session_msg_unaccepted local src session_id content s t l full h =
      let (a, (n, opened)) = handle_session_msg-Opened local src session_id content s t l h in
      let same : t.accept_session ≡ s.accept_session =
        opened.waiting ∙ (λ i. if full i then s.accept_session ++ n ∷ [] else s.accept_session) in
      (
        same,
        λ local' content'.
            ap (λ (r : Outcome (Unit {0}) × Sessions ncp). r.1.accept_session)
              (handle_session_msg_known local' src session_id content' t n opened.entered)
            ∙ hand_on_waiting local' (remove_identifier src).1 content' n t
            ∙ same,
      )
