-- ===== src/Client/Encryption/Sender.antt =====
-- client.go: what the messages that `encryptPayload` makes are made of.
use nkn_sdk_go.Base.{
  ℕ, zero, suc, ◌≡◌, sym, ◌∙◌, true, List, [], ◌∷◌, ◌++◌, Option, some, length, get_elem?, subst,
}
use nkn_sdk_go.Base.Bytes.{Bytes}
use nkn_sdk_go.Errors.{Outcome, ok, ok-injective}
use nkn_sdk_go.Action.{Action, lift, >>=-eq-ok}
use nkn_sdk_go.Message.{Nacl, Codec, Envelope, encrypt, nonce_size, shared_key_size}
use nkn_sdk_go.Message.Box.{encrypt_result}
use nkn_sdk_go.Client.Keys.{
  Keys, compute_key, get_or_compute_shared_key, get_or_compute_shared_key_lem, IsCache,
}
use nkn_sdk_go.Client.Encryption.{outside, encrypt_for_each, encrypt_for_one, encrypt_for_many}

module _ {W : Type 0} (nacl : Nacl W) (codec : Codec) (secret : Bytes) where
  open codec use {
    marshal_payload, marshal_envelope, parse_address, unmarshal_envelope, unmarshal_payload,
  }

  -- The envelope of one destination among several.
  abbrev pub keyed : Bytes → Bytes → Bytes → Bytes → Envelope
  keyed ciphertext message_nonce key_nonce encrypted_key = record {
    payload = ciphertext;
    encrypted = true;
    nonce = key_nonce ++ message_nonce;
    encrypted_key = encrypted_key;
  }

  -- What the message for a destination is made of: the message key under the key that is shared
  -- with that destination.
  abbrev pub IsKeyedFor : Bytes → Bytes → Bytes → Bytes → Bytes → Type 0
  IsKeyedFor key ciphertext message_nonce dest b =
      (id : Bytes) × (pk : Bytes) × (shared_key : Bytes) × (key_nonce : Bytes) × (parse_address dest
        ≡ ok (id, pk))
      × (compute_key nacl secret pk ≡ ok shared_key)
      × (length key_nonce ≡ nonce_size)
      × (marshal_envelope
            (keyed ciphertext message_nonce key_nonce (nacl.seal key key_nonce shared_key))
          ≡ ok b)

  pub outside-eq-ok :
      {A : Type 0} (m : Action W A) (s t : Keys W) (a : A)
      → outside nacl codec secret m s ≡ (ok a, t)
      → (m s.world ≡ (ok a, t.world)) × (s.shared_keys ≡ t.shared_keys)
  outside-eq-ok m s t a h = (λ i. ((h i).0, (h i).1.world), λ i. (h i).1.shared_keys)

  pub key_of_call :
      (pk k : Bytes) (s t : Keys W)
      → IsCache nacl secret s.shared_keys
      → get_or_compute_shared_key nacl secret pk s ≡ (ok k, t)
      → (compute_key nacl secret pk ≡ ok k) × IsCache nacl secret t.shared_keys
  key_of_call pk k s t valid h =
      let (same, valid', _) = get_or_compute_shared_key_lem nacl secret pk s valid in
      (
        sym same ∙ (λ i. (h i).0),
        subst (λ (r : Outcome Bytes × Keys W). IsCache nacl secret r.1.shared_keys) h valid',
      )

  abbrev pub Sound : Keys W → Type 0
  Sound s = IsCache nacl secret s.shared_keys

  encrypt_for_each-cons :
      (key c mn d : Bytes) (ds : List Bytes) (s t : Keys W) (msgs : List Bytes)
      → Sound s
      → encrypt_for_each nacl codec secret key c mn (d ∷ ds) s ≡ (ok msgs, t)
      → (b : Bytes) × (rest : List Bytes) × (u : Keys W) × IsKeyedFor key c mn d b
        × Sound u
        × (encrypt_for_each nacl codec secret key c mn ds u ≡ (ok rest, t))
        × (msgs ≡ b ∷ rest)
  unfolding encrypt_for_each
  encrypt_for_each-cons key c mn d ds s t msgs valid h =
      let ((id, pk), s1, e1, h1) = >>=-eq-ok (lift (parse_address d)) _ s h in
      let (sk, s2, e2, h2) = >>=-eq-ok (get_or_compute_shared_key nacl secret pk) _ s1 h1 in
      let ((ek, kn), s3, e3, h3) =
        >>=-eq-ok (outside nacl codec secret (encrypt nacl key sk)) _ s2 h2 in
      let (b, s4, e4, h4) = >>=-eq-ok (lift (marshal_envelope (keyed c mn kn ek))) _ s3 h3 in
      let (rest, s5, e5, h5) = >>=-eq-ok (encrypt_for_each nacl codec secret key c mn ds) _ s4 h4 in
      let valid1 : Sound s1 = subst Sound (λ i. (e1 i).1) valid in
      let (key_eq, valid2) = key_of_call pk sk s1 s2 valid1 e2 in
      let (drawn, kept) = outside-eq-ok (encrypt nacl key sk) s2 s3 (ek, kn) e3 in
      let (kn_length, ek_eq) = encrypt_result nacl key sk ek kn s2.world s3.world drawn in
      let valid3 : Sound s3 = subst (IsCache nacl secret) kept valid2 in
      (
        b,
        rest,
        s4,
        (
          id,
          pk,
          sk,
          kn,
          (λ i. (e1 i).0),
          key_eq,
          kn_length,
          subst (λ x. marshal_envelope (keyed c mn kn x) ≡ ok b) ek_eq (λ i. (e4 i).0),
        ),
        subst Sound (λ i. (e4 i).1) valid3,
        e5 ∙ (λ i. (ok rest, (h5 i).1)),
        sym (ok-injective (λ i. (h5 i).0)),
      )

  pub encrypt_for_each-get :
      (key c mn : Bytes) (dests : List Bytes) (s t : Keys W) (msgs : List Bytes) (i : ℕ)
      (dest b : Bytes)
      → Sound s
      → encrypt_for_each nacl codec secret key c mn dests s ≡ (ok msgs, t)
      → get_elem? dests i ≡ some dest
      → get_elem? msgs i ≡ some b
      → IsKeyedFor key c mn dest b
  encrypt_for_each-get key c mn [] s t msgs i dest b valid h at_i got = cc
  encrypt_for_each-get key c mn (d ∷ ds) s t msgs zero dest b valid h at_i got =
      let (b', rest, u, this, valid', more, e) =
        encrypt_for_each-cons key c mn d ds s t msgs valid h in
      let got' : ◌≡◌ {A = Option Bytes} (some b') (some b) = rw e at got in
      let same_dest : d ≡ dest = cc in
      let same : b' ≡ b = cc in
      subst (λ x. IsKeyedFor key c mn x b) same_dest (subst (IsKeyedFor key c mn d) same this)
  encrypt_for_each-get key c mn (d ∷ ds) s t msgs (suc i) dest b valid h at_i got =
      let (b', rest, u, this, valid', more, e) =
        encrypt_for_each-cons key c mn d ds s t msgs valid h in
      encrypt_for_each-get key c mn ds u t rest i dest b valid' more at_i (rw e at got)

  -- The envelope of a single destination.
  abbrev pub alone : Bytes → Bytes → Envelope
  alone ciphertext nonce = record {
    payload = ciphertext;
    encrypted = true;
    nonce = nonce;
    encrypted_key = [];
  }

  pub encrypt_for_one-get :
      (raw dest : Bytes) (s t : Keys W) (msgs : List Bytes)
      → Sound s
      → encrypt_for_one nacl codec secret raw dest s ≡ (ok msgs, t)
      → (id : Bytes) × (pk : Bytes) × (shared_key : Bytes) × (nonce : Bytes) × (b : Bytes)
        × (parse_address dest ≡ ok (id, pk))
        × (compute_key nacl secret pk ≡ ok shared_key)
        × (length nonce ≡ nonce_size)
        × (marshal_envelope (alone (nacl.seal raw nonce shared_key) nonce) ≡ ok b)
        × (msgs ≡ b ∷ [])
  unfolding encrypt_for_one
  encrypt_for_one-get raw dest s t msgs valid h =
      let ((id, pk), s1, e1, h1) = >>=-eq-ok (lift (parse_address dest)) _ s h in
      let (sk, s2, e2, h2) = >>=-eq-ok (get_or_compute_shared_key nacl secret pk) _ s1 h1 in
      let ((ct, n), s3, e3, h3) =
        >>=-eq-ok (outside nacl codec secret (encrypt nacl raw sk)) _ s2 h2 in
      let (b, s4, e4, h4) = >>=-eq-ok (lift (marshal_envelope (alone ct n))) _ s3 h3 in
      let valid1 : Sound s1 = subst Sound (λ i. (e1 i).1) valid in
      let (key_eq, valid2) = key_of_call pk sk s1 s2 valid1 e2 in
      let (drawn, kept) = outside-eq-ok (encrypt nacl raw sk) s2 s3 (ct, n) e3 in
      let (n_length, ct_eq) = encrypt_result nacl raw sk ct n s2.world s3.world drawn in
      (
        id,
        pk,
        sk,
        n,
        b,
        (λ i. (e1 i).0),
        key_eq,
        n_length,
        subst (λ x. marshal_envelope (alone x n) ≡ ok b) ct_eq (λ i. (e4 i).0),
        sym (ok-injective (λ i. (h4 i).0)),
      )

  -- The message key and the nonce of the payload, for several destinations.
  pub encrypt_for_many-get :
      (raw : Bytes) (dests : List Bytes) (s t : Keys W) (msgs : List Bytes)
      → Sound s
      → encrypt_for_many nacl codec secret raw dests s ≡ (ok msgs, t)
      → (key : Bytes) × (mn : Bytes) × (u : Keys W) × (length key ≡ shared_key_size)
        × (length mn ≡ nonce_size)
        × Sound u
        × (encrypt_for_each nacl codec secret key (nacl.seal raw mn key) mn dests u ≡ (ok msgs, t))
  unfolding encrypt_for_many
  encrypt_for_many-get raw dests s t msgs valid h =
      let (key, s1, e1, h1) =
        >>=-eq-ok (outside nacl codec secret (nacl.rand shared_key_size)) _ s h in
      let ((ct, mn), s2, e2, h2) =
        >>=-eq-ok (outside nacl codec secret (encrypt nacl raw key)) _ s1 h1 in
      let (drawn1, kept1) = outside-eq-ok (nacl.rand shared_key_size) s s1 key e1 in
      let (drawn2, kept2) = outside-eq-ok (encrypt nacl raw key) s1 s2 (ct, mn) e2 in
      let (mn_length, ct_eq) = encrypt_result nacl raw key ct mn s1.world s2.world drawn2 in
      (
        key,
        mn,
        s2,
        nacl.length-rand shared_key_size s.world s1.world key drawn1,
        mn_length,
        subst (IsCache nacl secret) (kept1 ∙ kept2) valid,
        subst (λ x. encrypt_for_each nacl codec secret key x mn dests s2 ≡ (ok msgs, t)) ct_eq h2,
      )
