-- ===== src/NanoPay/Claimer/Accepts.antt =====
-- nanopay.go: transactions that `Claim` has no reason to refuse.
use nkn_sdk_go.Base.{
  ℕ, ◌<◌, ◌≡◌, refl, sym, ap, ◌∙◌, Bool, true, false, Option, some, none, leb, ◌==◌, ==_iff,
  Bool-cases, ◌⊎◌, inl, inr, arith,
}
use nkn_sdk_go.Base.Int.{ℤ, pos, ◌+ℤ◌, ◌≤ℤ◌, ltb_ℤ, leb_ℤ, wrap_i64, to_u32}
use nkn_sdk_go.Base.Bytes.{Bytes, bytes_eq, bytes_eq_iff}
use nkn_sdk_go.Errors.{Outcome, ok, ok-injective, nano_pay_closed}
use nkn_sdk_go.Action.{raise_if, >>-step, lift-eq-ok}
use nkn_sdk_go.NanoPay.{Blockchain, NanoPayData, add_u32, receiver_expiration_delta}
use nkn_sdk_go.NanoPay.Checks.{validate, check_funds}
use nkn_sdk_go.NanoPay.Claimer.{
  Claimer, create_claimer, switch_when, switch_from, switch_channel, admit_valid, admit, accept,
  amount_of, claim, on_world, flush, leave_channel, close_on_error,
}
use nkn_sdk_go.NanoPay.Claimer.Accepted.{IsUpdate}
use nkn_sdk_go.NanoPay.Claimer.Unflushed.{switch_lem}

leb-after : (a b : ℕ) → b < a → leb a b ≡ false
leb-after a b h = ground (arith, h)

module _ {W : Type 0} (chain : Blockchain W) where
  open chain use {Tx}

  -- An open claimer whose node answers, with a height and a balance that is enough, and a transaction
  -- that verifies at that height; what the transaction is for pays to the claimer. `w` is the world when
  -- the height is known, and `after` the claimer when its channel is the one of the transaction.
  pub record Ready (x : Tx) (height : ℤ) (w : W) (p : NanoPayData) (c after : Claimer chain)
      : Type 0 where
    pub height_known : chain.get_height c.world ≡ (ok height, w)
    pub to_me : chain.parse_uint160 p.recipient ≡ ok c.recipient_hash
    pub verified : chain.verify x (to_u32 height) ≡ ok tt
    pub sender_hash : Bytes
    pub sender_known : chain.parse_uint160 p.sender ≡ ok sender_hash
    pub address : Bytes
    pub address_known : chain.to_address sender_hash ≡ ok address
    pub is_open : c.closed ≡ false
    pub sender_balance : ℤ
    pub balance_world : W
    pub balance_known : chain.balance address after.world ≡ (ok sender_balance, balance_world)
    pub enough :
        wrap_i64 (p.amount +ℤ chain.fee x) ≤ℤ wrap_i64 (sender_balance +ℤ after.prev_flush_amount)

  -- The claimer stays in its channel, or leaves it after a flush that does not fail.
  abbrev pub Switches : NanoPayData → Claimer chain → Claimer chain → Type 0
  Switches p c after =
      (IsUpdate chain p c × (after ≡ c))
      ⊎ ((i : ℕ) × (f : Claimer chain) × (c.id ≡ some i)
          × (¬ (i ≡ p.id))
          × (flush chain false c ≡ (ok tt, f))
          × (after ≡ leave_channel chain f))

  validate_passes :
      (x : Tx) (height : ℤ) (w : W) (p : NanoPayData) (c after : Claimer chain)
      (r : Ready x height w p c after)
      → chain.unpack x ≡ ok (some p)
      → validate chain x (to_u32 height) c.recipient_hash ≡ ok (p, r.address)
  unfolding validate
  validate_passes x height w p c after r o =
      let same : bytes_eq c.recipient_hash c.recipient_hash ≡ true =
        (bytes_eq_iff c.recipient_hash c.recipient_hash).1 refl in
      simp (o, r.to_me, same, r.verified, r.sender_known, r.address_known)

  check_funds_passes :
      (x : Tx) (n : ℕ) (p : NanoPayData) (b f : ℤ)
      → wrap_i64 (p.amount +ℤ chain.fee x) ≤ℤ wrap_i64 (b +ℤ f)
      → add_u32 n receiver_expiration_delta < p.txn_expiration
      → add_u32 n receiver_expiration_delta < p.nano_pay_expiration
      → check_funds chain x n p b f ≡ ok tt
  unfolding check_funds
  check_funds_passes x n p b f enough t e =
      let funds : ltb_ℤ (wrap_i64 (b +ℤ f)) (wrap_i64 (p.amount +ℤ chain.fee x)) ≡ false =
        ground (arith, enough) in
      let txn = leb-after p.txn_expiration (add_u32 n receiver_expiration_delta) t in
      let channel = leb-after p.nano_pay_expiration (add_u32 n receiver_expiration_delta) e in
      simp (funds, txn, channel)

  stays :
      (o : Option ℕ) (p : NanoPayData) (c : Claimer chain)
      → c.id ≡ o
      → IsUpdate chain p c
      → switch_from chain o p c ≡ (ok tt, c)
  unfolding switch_from switch_when
  stays none p c e u = refl
  stays (some i) p c e (inl n) = cc
  stays (some i) p c e (inr (s, l)) =
      let same : (i == p.id) ≡ true = (==_iff i p.id).1 (cc) in
      let grows : leb_ℤ p.amount c.amount ≡ false = ground (arith, l) in simp (same, grows)

  left :
      (x : Bool) (p : NanoPayData) (c f : Claimer chain)
      → x ≡ false
      → flush chain false c ≡ (ok tt, f)
      → switch_when chain x p c ≡ (ok tt, leave_channel chain f)
  unfolding switch_when close_on_error
  left true p c f e h = cc
  left false p c f e h = simp (h)

  other_channel :
      (i : ℕ) (p : NanoPayData) (c f : Claimer chain)
      → c.id ≡ some i
      → ¬ (i ≡ p.id)
      → flush chain false c ≡ (ok tt, f)
      → switch_from chain c.id p c ≡ (ok tt, leave_channel chain f)
  other_channel i p c f e n h = switch_lem chain p i c.id c e ∙ elim (Bool-cases (i == p.id)) [
    | inl same ↦ absurd (n ((==_iff i p.id).0 same))
    | inr other ↦ left (i == p.id) p c f other h
  ]

  switch_passes :
      (p : NanoPayData) (c after : Claimer chain)
      → Switches p c after
      → switch_channel chain p c ≡ (ok tt, after)
  unfolding switch_channel
  switch_passes p c after (inl (u, e)) = stays c.id p c refl u ∙ ap (λ a. (ok tt, a)) (sym e)
  switch_passes p c after (inr (i, f, s, n, h, e)) =
      other_channel i p c f s n h ∙ ap (λ a. (ok tt, a)) (sym e)

  on_world_lem :
      {A : Type 0} (m : W → Outcome A × W) (c : Claimer chain) (o : Outcome A) (w : W)
      → m c.world ≡ (o, w)
      → on_world chain m c ≡ (o, record c { world = w })
  on_world_lem m c o w h i = ((h i).0, record c { world = (h i).1 })

  admit_valid_passes :
      (x : Tx) (height : ℤ) (w : W) (p : NanoPayData) (c after : Claimer chain)
      (r : Ready x height w p c after)
      → Switches p (record c { world = w }) after
      → add_u32 (to_u32 height) receiver_expiration_delta < p.txn_expiration
      → add_u32 (to_u32 height) receiver_expiration_delta < p.nano_pay_expiration
      → admit_valid chain x (to_u32 height) (p, r.address) (record c { world = w })
        ≡ (ok p, record after { world = r.balance_world })
  unfolding admit_valid
  admit_valid_passes x height w p c after r s t e =
      let at : Claimer chain = record c { world = w } in
      let asked : on_world chain (chain.balance r.address) after
          ≡ (ok r.sender_balance, record after { world = r.balance_world }) =
        on_world_lem (chain.balance r.address) after (ok r.sender_balance) r.balance_world
          r.balance_known in
      let funds : check_funds chain x (to_u32 height) p r.sender_balance after.prev_flush_amount
          ≡ ok tt =
        check_funds_passes x (to_u32 height) p r.sender_balance after.prev_flush_amount r.enough t
          e in
      >>-step (raise_if c.closed nano_pay_closed) _ at at
        (λ i. raise_if (r.is_open i) nano_pay_closed at)
      ∙ >>-step (switch_channel chain p) _ at after (switch_passes p at after s)
      ∙ simp (asked, funds)

  admit_passes :
      (x : Tx) (height : ℤ) (w : W) (p : NanoPayData) (c after : Claimer chain)
      (r : Ready x height w p c after)
      → chain.unpack x ≡ ok (some p)
      → Switches p (record c { world = w }) after
      → add_u32 (to_u32 height) receiver_expiration_delta < p.txn_expiration
      → add_u32 (to_u32 height) receiver_expiration_delta < p.nano_pay_expiration
      → admit chain x c ≡ (ok p, record after { world = r.balance_world })
  unfolding admit
  admit_passes x height w p c after r o s t e =
      let asked : on_world chain chain.get_height c ≡ (ok height, record c { world = w }) =
        on_world_lem chain.get_height c (ok height) w r.height_known in
      let valid = validate_passes x height w p c after r o in
      let rest = admit_valid_passes x height w p c after r s t e in simp (asked, valid, rest)

  -- The claimer of the transaction.
  abbrev pub claimed : Tx → NanoPayData → W → Claimer chain → Claimer chain
  claimed x p w c = record c {
    world = w;
    tx = some x;
    id = some p.id;
    expiration = p.txn_expiration;
    amount = p.amount;
  }

  -- `Claim` accepts a transaction that it is ready for, in a channel that has grown, is the first or
  -- comes after a flush that does not fail, and that does not expire within three blocks; and returns
  -- what was claimed in the channels before with the amount of this one.
  pub claim_accepts :
      (x : Tx) (height : ℤ) (w : W) (p : NanoPayData) (c after : Claimer chain)
      (r : Ready x height w p c after)
      → chain.unpack x ≡ ok (some p)
      → Switches p (record c { world = w }) after
      → add_u32 (to_u32 height) receiver_expiration_delta < p.txn_expiration
      → add_u32 (to_u32 height) receiver_expiration_delta < p.nano_pay_expiration
      → claim chain x c
        ≡ (ok (wrap_i64 (after.prev_claimed_amount +ℤ p.amount)), claimed x p r.balance_world after)
  unfolding claim accept amount_of
  claim_accepts x height w p c after r o s t e = simp (admit_passes x height w p c after r o s t e)

  -- A new claimer is of no channel and has claimed nothing.
  pub create_claimer_lem :
      (recipient min_flush_amount : Bytes) (w w' : W) (c : Claimer chain)
      → create_claimer chain recipient min_flush_amount w ≡ (ok c, w')
      → (c.id ≡ none) × (c.amount ≡ pos 0) × (c.prev_claimed_amount ≡ pos 0)
  unfolding create_claimer
  create_claimer_lem recipient min_flush_amount w w' c e =
      let (hash, o, e1) = lift-eq-ok (chain.to_script_hash recipient) _ w e in
      let (least, o', e2) = lift-eq-ok (chain.parse_amount min_flush_amount) _ w e1 in
      let same = sym (ok-injective (λ i. (e2 i).0)) in
      (ap (λ x. x.id) same, ap (λ x. x.amount) same, ap (λ x. x.prev_claimed_amount) same)
