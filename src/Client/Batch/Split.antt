-- ===== src/Client/Batch/Split.antt =====
-- client.go: the batches of `sendTimeout` hold every message, once and in order, and each batch is of
-- a size that a node accepts.
use nkn_sdk_go.Base.{
  ℕ, ◌+◌, ◌≤◌, ◌<◌, ◌≡◌, ◌≢◌, refl, sym, ap, ◌∙◌, subst, true, false, List, [], ◌∷◌, ◌++◌, length,
  ltb, arith, All, append-nil, append_assoc, length-append, Bool-cases, inl, inr, All-append,
  ltb→lt,
}
use nkn_sdk_go.Base.Int.{ℤ}
use nkn_sdk_go.Base.Bytes.{Bytes}
use nkn_sdk_go.Errors.{Outcome, ok, err, ok-injective, message_oversize}
use nkn_sdk_go.Action.{lift, >>=-eq-ok}
use nkn_sdk_go.Message.{Nacl, Codec}
use nkn_sdk_go.Client.Outbound.{OutboundMessage, Signing, sign_each, block_hash_of}
use nkn_sdk_go.Client.State.{Client, Net}
use nkn_sdk_go.Client.Batch.{
  max_client_message_size, size_of, new_outbound_message, split_loop, batches_of_many, node_key,
}
use nkn_sdk_go.Client.Batch.Sizes.{
  batch_size, FitsMessage, all_dests, all_payloads, batch_size-append, batch_size_pos, ltb-le,
  all_dests-append, all_payloads-append,
}

module _ {W : Type 0} (nacl : Nacl W) (codec : Codec) (secret : Bytes) (signing : Signing W)
    (net : Net W) (holding : ℤ) where
  abbrev signing_nonce : Client W → ℕ × Client W
  signing_nonce c =
      let (n, w) = signing.rand_uint32 c.keys.world in
      (n, record c { keys = record c.keys { world = w } })

  -- An outbound message is for the destinations and of the payloads that it was made for.
  new_outbound_message_lem :
      (ds ps : List Bytes) (c c' : Client W) (m : OutboundMessage)
      → new_outbound_message nacl codec secret signing net ds ps holding c ≡ (ok m, c')
      → (m.dests ≡ ds) × (m.payloads ≡ ps)
  unfolding new_outbound_message
  new_outbound_message_lem ds ps c c' m h =
      let (pk, c1, e1, h1) = >>=-eq-ok (λ s. (node_key nacl codec secret signing net s, s)) _ c h in
      let (n, c2) = signing_nonce c1 in
      let (hash, c3, e3, h3) =
        >>=-eq-ok (λ s. (block_hash_of codec signing s.sig_chain_block_hash, s)) _ c2 h1 in
      let (ss, c4, e4, h4) = >>=-eq-ok (lift (sign_each codec signing pk hash n ps 0 ds)) _ c3 h3 in
      let e = sym (ok-injective (λ i. (h4 i).0)) in (ap (λ x. x.dests) e, ap (λ x. x.payloads) e)

  -- What the loop leaves: complete batches, and a last one that is under way.
  abbrev IsSplit :
      List Bytes
      → List Bytes
      → List Bytes
      → List Bytes
      → List OutboundMessage × List Bytes × List Bytes
      → Type 0
  IsSplit dests plds dest_list pld_list (msgs, ds, ps) =
      (all_dests msgs ++ ds ≡ dest_list ++ dests)
      × (all_payloads msgs ++ ps ≡ pld_list ++ plds)
      × All FitsMessage msgs
      × (length ds ≡ length ps)
      × (batch_size ds ps ≤ max_client_message_size)
      × (dest_list ++ dests ≢ [] → ds ≢ [])

  flushed :
      (d p : Bytes) (ds ps dl pl : List Bytes) (total : ℕ) (m : OutboundMessage)
      (ms : List OutboundMessage) (ds' ps' : List Bytes) (c c1 : Client W)
      (r : List OutboundMessage × List Bytes × List Bytes)
      → ◌≡◌ {A = List OutboundMessage × List Bytes × List Bytes} (m ∷ ms, ds', ps') r
      → new_outbound_message nacl codec secret signing net dl pl holding c ≡ (ok m, c1)
      → length dl ≡ length pl
      → total ≡ batch_size dl pl
      → ltb max_client_message_size (total + size_of d p) ≡ true
      → ltb max_client_message_size (size_of d p) ≡ false
      → total ≤ max_client_message_size
      → IsSplit ds ps (d ∷ []) (p ∷ []) (ms, ds', ps')
      → IsSplit (d ∷ ds) (p ∷ ps) dl pl r
  flushed d p ds ps dl pl total m ms ds' ps' c c1 r e made el et full small le
        (rd, rp, fit, len, le', ne) =
      let (eq_d, eq_p) = new_outbound_message_lem dl pl c c1 m made in
      let busy : 0 < batch_size dl pl = omega (arith, ltb→lt _ _ full, ltb-le _ _ small) in
      subst (IsSplit (d ∷ ds) (p ∷ ps) dl pl) e (
        append_assoc m.dests (all_dests ms) ds' ∙ ap (◌++◌ m.dests) rd ∙ ap (λ x. x ++ d ∷ ds) eq_d,
        append_assoc m.payloads (all_payloads ms) ps'
            ∙ ap (◌++◌ m.payloads) rp
            ∙ ap (λ x. x ++ p ∷ ps) eq_p,
        (rw (eq_d, eq_p) (batch_size_pos dl pl busy, el, omega arith), fit),
        len,
        le',
        λ _. ne (λ z. cc),
      )

  extended :
      (d p : Bytes) (ds ps dl pl : List Bytes) (r : List OutboundMessage × List Bytes × List Bytes)
      → IsSplit ds ps (dl ++ d ∷ []) (pl ++ p ∷ []) r
      → IsSplit (d ∷ ds) (p ∷ ps) dl pl r
  extended d p ds ps dl pl r (rd, rp, fit, len, le, ne) = (
    rd ∙ append_assoc dl (d ∷ []) ds,
    rp ∙ append_assoc pl (p ∷ []) ps,
    fit,
    len,
    le,
    λ h. ne (λ z. h (sym (append_assoc dl (d ∷ []) ds) ∙ z)),
  )

  split_loop-IsSplit :
      (dests plds dest_list pld_list : List Bytes) (total : ℕ) (c c' : Client W)
      (r : List OutboundMessage × List Bytes × List Bytes)
      → length dests ≡ length plds
      → length dest_list ≡ length pld_list
      → total ≡ batch_size dest_list pld_list
      → total ≤ max_client_message_size
      → split_loop nacl codec secret signing net holding dests plds dest_list pld_list total c
        ≡ (ok r, c')
      → IsSplit dests plds dest_list pld_list r
  unfolding split_loop
  split_loop-IsSplit [] [] dl pl total c c' r e el et le h =
      subst (IsSplit [] [] dl pl) (ok-injective (λ i. (h i).0)) (
        sym (append-nil dl),
        sym (append-nil pl),
        tt,
        el,
        omega arith,
        λ ne z. ne (append-nil dl ∙ z),
      )
  split_loop-IsSplit [] (p ∷ ps) dl pl total c c' r e el et le h = absurd (omega arith)
  split_loop-IsSplit (d ∷ ds) [] dl pl total c c' r e el et le h = absurd (omega arith)
  split_loop-IsSplit (d ∷ ds) (p ∷ ps) dl pl total c c' r e el et le h =
      elim (Bool-cases (ltb max_client_message_size (size_of d p))) [
        | inl big ↦
            let h' : ◌≡◌ {A = Outcome _ × Client W} (err message_oversize, c) (ok r, c') =
              rw big at h in
            cc
        | inr small ↦ elim (Bool-cases (ltb max_client_message_size (total + size_of d p))) [
          | inl full ↦
              let (m, c1, e1, h1) =
                >>=-eq-ok (new_outbound_message nacl codec secret signing net dl pl holding) _ c
                  (rw full at rw small at h) in
              let ((ms, ds', ps'), c2, e2, h2) =
                >>=-eq-ok
                  (split_loop nacl codec secret signing net holding ds ps (d ∷ []) (p ∷ [])
                    (size_of d p))
                  _ c1 h1 in
              let fits = ltb-le _ _ small in
              flushed d p ds ps dl pl total m ms ds' ps' c c1 r (ok-injective (λ i. (h2 i).0)) e1 el
                et full small le
                (split_loop-IsSplit ds ps (d ∷ []) (p ∷ []) (size_of d p) c1 c2 (ms, ds', ps')
                  (omega arith) refl (omega arith) fits e2)
          | inr room ↦ extended d p ds ps dl pl r (
              split_loop-IsSplit ds ps (dl ++ d ∷ []) (pl ++ p ∷ []) (total + size_of d p) c c' r
                (omega arith) (omega (arith, length-append dl (d ∷ []), length-append pl (p ∷ [])))
                (omega (arith, batch_size-append dl pl d p el)) (ltb-le _ _ room)
                (rw room at rw small at h))
        ]
      ]

  -- The batches of `sendTimeout` for messages of their own: read one after the other they hold every
  -- destination and every message, once and in order; none is empty, each has as many messages as
  -- destinations, and none is larger than the limit.
  pub batches_of_many-Fits :
      (dests plds : List Bytes) (c c' : Client W) (msgs : List OutboundMessage)
      → dests ≢ []
      → length dests ≡ length plds
      → batches_of_many nacl codec secret signing net holding dests plds c ≡ (ok msgs, c')
      → (all_dests msgs ≡ dests) × (all_payloads msgs ≡ plds) × All FitsMessage msgs
  unfolding batches_of_many
  batches_of_many-Fits dests plds c c' msgs ne same h =
      let ((ms, ds, ps), c1, e1, h1) =
        >>=-eq-ok (split_loop nacl codec secret signing net holding dests plds [] [] 0) _ c h in
      let (m, c2, e2, h2) =
        >>=-eq-ok (new_outbound_message nacl codec secret signing net ds ps holding) _ c1 h1 in
      let (eq_d, eq_p) = new_outbound_message_lem ds ps c1 c2 m e2 in
      let (all_d, all_p, fit, len, le, ne') =
        split_loop-IsSplit dests plds [] [] 0 c c1 (ms, ds, ps) same refl refl (omega arith) e1 in
      subst
        (λ (x : List OutboundMessage).
          (all_dests x ≡ dests) × (all_payloads x ≡ plds) × All FitsMessage x)
        (ok-injective (λ i. (h2 i).0))
        (
          all_dests-append ms m ∙ ap (◌++◌ (all_dests ms)) eq_d ∙ all_d,
          all_payloads-append ms m ∙ ap (◌++◌ (all_payloads ms)) eq_p ∙ all_p,
          All-append FitsMessage ms (m ∷ []) fit (rw (eq_d, eq_p) (ne' ne, len, le), tt),
        )
