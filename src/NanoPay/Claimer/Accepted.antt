-- ===== src/NanoPay/Claimer/Accepted.antt =====
-- nanopay.go: what holds of a transaction that `Claim` accepts.
use nkn_sdk_go.Base.{
  ℕ, ◌≡◌, ◌<◌, refl, sym, ap, ◌∙◌, subst, Bool, true, false, Option, some, none, ◌==◌, ==_iff, ◌⊎◌,
  inl, inr, arith,
}
use nkn_sdk_go.Base.Int.{ℤ, pos, ◌+ℤ◌, ◌≤ℤ◌, ◌<ℤ◌, leb_ℤ, wrap_i64, to_u32}
use nkn_sdk_go.Base.Bytes.{Bytes}
use nkn_sdk_go.Errors.{Error, ok-injective, nano_pay_closed, Outcome, ok, err, panic}
use nkn_sdk_go.Action.{raise_if, ◌>>◌, >>=-eq-ok, modify}
use nkn_sdk_go.NanoPay.{Blockchain, NanoPayData, add_u32, receiver_expiration_delta}
use nkn_sdk_go.NanoPay.Checks.Valid.{validate_ok, check_funds_ok}
use nkn_sdk_go.NanoPay.Checks.{validate, check_funds}
use nkn_sdk_go.NanoPay.Claimer.{
  Claimer, on_world, or_close, close_if, flush, close_on_error, leave_channel, switch_when,
  switch_from, switch_channel, admit_valid, admit,
}

module _ {W : Type 0} (chain : Blockchain W) where
  open chain use {Tx}

  -- The channel is the same one with less in it, or there is none.
  abbrev pub IsUpdate : NanoPayData → Claimer chain → Type 0
  IsUpdate p c = (c.id ≡ none) ⊎ ((c.id ≡ some p.id) × (c.amount <ℤ p.amount))

  or_close_ok :
      {A : Type 0} (o : Outcome A) (c c' : Claimer chain) (a : A)
      → or_close chain o c ≡ (ok a, c')
      → (o ≡ ok a) × (c ≡ c')
  or_close_ok (ok a) c c' b h = ((λ i. (h i).0), (λ i. (h i).1))
  or_close_ok (err e) c c' b h = cc
  or_close_ok panic c c' b h = cc

  not_closed_if :
      (p : NanoPayData) (x : Bool) (e : Error) (c c' : Claimer chain)
      → x ≡ leb_ℤ p.amount c.amount
      → close_if chain x e c ≡ (ok tt, c')
      → c.amount <ℤ p.amount
  not_closed_if p true e c c' l h = cc
  not_closed_if p false e c c' l h = ground (arith, l)

  same_channel :
      (p : NanoPayData) (x : Bool) (e : Error) (c c' : Claimer chain)
      → x ≡ leb_ℤ p.amount c.amount
      → c.id ≡ some p.id
      → close_if chain x e c ≡ (ok tt, c')
      → IsUpdate p c'
  same_channel p true e c c' l is h = cc
  same_channel p false e c c' l is h =
      subst (IsUpdate p) (λ j. (h j).1) (inr (is, ground (arith, l)))

  new_channel :
      (p : NanoPayData) (c c' : Claimer chain)
      → ((λ s. close_on_error chain (flush chain false s)) >> modify (leave_channel chain)) c
        ≡ (ok tt, c')
      → IsUpdate p c'
  unfolding leave_channel
  new_channel p c c' h =
      let (u, s, e1, e2) = >>=-eq-ok (λ s. close_on_error chain (flush chain false s)) _ c h in
      subst (IsUpdate p) (λ j. (e2 j).1) (inl refl)

  switch_when_ok :
      (x : Bool) (p : NanoPayData) (c c' : Claimer chain)
      → (x ≡ true → c.id ≡ some p.id)
      → switch_when chain x p c ≡ (ok tt, c')
      → IsUpdate p c'
  unfolding switch_when
  switch_when_ok true p c c' is h = same_channel p (leb_ℤ p.amount c.amount) _ c c' refl (is refl) h
  switch_when_ok false p c c' is h = new_channel p c c' h

  switch_from_ok :
      (o : Option ℕ) (p : NanoPayData) (c c' : Claimer chain)
      → c.id ≡ o
      → switch_from chain o p c ≡ (ok tt, c')
      → IsUpdate p c'
  unfolding switch_from
  switch_from_ok none p c c' is h = subst (IsUpdate p) (λ j. (h j).1) (inl is)
  switch_from_ok (some i) p c c' is h =
      switch_when_ok (i == p.id) p c c' (λ e. is ∙ ap some ((==_iff i p.id).0 e)) h

  switch_when_grows :
      (x : Bool) (p : NanoPayData) (c c' : Claimer chain)
      → switch_when chain x p c ≡ (ok tt, c')
      → x ≡ true
      → c.amount <ℤ p.amount
  unfolding switch_when
  switch_when_grows true p c c' h e = not_closed_if p (leb_ℤ p.amount c.amount) _ c c' refl h
  switch_when_grows false p c c' h e = cc

  switch_from_grows :
      (o : Option ℕ) (p : NanoPayData) (c c' : Claimer chain)
      → switch_from chain o p c ≡ (ok tt, c')
      → o ≡ some p.id
      → c.amount <ℤ p.amount
  unfolding switch_from
  switch_from_grows none p c c' h e = cc
  switch_from_grows (some i) p c c' h e =
      switch_when_grows (i == p.id) p c c' h ((==_iff i p.id).1 (cc e))

  raise_if_same :
      (x : Bool) (e : Error) (c c' : Claimer chain) → raise_if x e c ≡ (ok tt, c') → c ≡ c'
  raise_if_same true e c c' h = cc
  raise_if_same false e c c' h = λ i. (h i).1

  not_raised :
      (x : Bool) (e : Error) (c c' : Claimer chain) → raise_if x e c ≡ (ok tt, c') → x ≡ false
  not_raised true e c c' h = cc
  not_raised false e c c' h = refl

  admit_valid_ok :
      (x : Tx) (n : ℕ) (p q : NanoPayData) (address : Bytes) (c c' : Claimer chain)
      → admit_valid chain x n (p, address) c ≡ (ok q, c')
      → (c.closed ≡ false)
        × (q ≡ p)
        × IsUpdate p c'
        × (c.id ≡ some p.id → c.amount <ℤ p.amount)
        × (s : Claimer chain) × (b : ℤ) × (switch_channel chain p c ≡ (ok tt, s))
        × ((chain.balance address s.world).0 ≡ ok b)
        × (check_funds chain x n p b s.prev_flush_amount ≡ ok tt)
        × (c'.world ≡ (chain.balance address s.world).1)
  unfolding admit_valid switch_channel
  admit_valid_ok x n p q address c c' h =
      let (u1, s1, e1, h1) = >>=-eq-ok (raise_if c.closed nano_pay_closed) _ c h in
      let same1 : c ≡ s1 = raise_if_same c.closed nano_pay_closed c s1 e1 in
      let (u2, s2, e2, h2) = >>=-eq-ok (switch_channel chain p) _ s1 h1 in
      let (b, s3, e3, h3) = >>=-eq-ok (on_world chain (chain.balance address)) _ s2 h2 in
      let (u4, s4, e4, h4) =
        >>=-eq-ok (or_close chain (check_funds chain x n p b s3.prev_flush_amount)) _ s3 h3 in
      let (funds, same) =
        or_close_ok (check_funds chain x n p b s3.prev_flush_amount) s3 s4 tt e4 in
      (
        not_raised c.closed nano_pay_closed c s1 e1,
        sym (ok-injective (λ i. (h4 i).0)),
        subst (IsUpdate p) (same ∙ (λ i. (h4 i).1))
            (subst (IsUpdate p) (λ i. (e3 i).1) (switch_from_ok s1.id p s1 s2 refl e2)),
        (λ e.
            subst (λ s. s.amount <ℤ p.amount) (sym same1)
              (switch_from_grows s1.id p s1 s2 e2 (ap (λ s. s.id) (sym same1) ∙ e))),
        s2,
        b,
        subst (λ s. switch_channel chain p s ≡ (ok tt, s2)) (sym same1) e2,
        (λ i. (e3 i).0),
        subst (λ z. check_funds chain x n p b z ≡ ok tt) (sym (λ i. (e3 i).1.prev_flush_amount))
            funds,
        sym ((λ i. (e3 i).1.world) ∙ ap (λ s. s.world) (same ∙ (λ i. (h4 i).1))),
      )

  -- What an accepted transaction must be: one that verifies at the height that the node gives, whose
  -- channel pays to this claimer and lasts for more blocks, in an update of the last channel that raises
  -- its amount or in another channel; and the balance that the node gives of the sender, once the channel
  -- is switched, covers it with the fee.
  pub record Accepted (x : Tx) (height : ℤ) (p : NanoPayData) (c : Claimer chain) : Type 0 where
    pub asked : chain.get_height c.world ≡ (ok height, (chain.get_height c.world).1)
    pub unpacked : chain.unpack x ≡ ok (some p)
    pub verified : chain.verify x (to_u32 height) ≡ ok tt
    pub recipient : chain.parse_uint160 p.recipient ≡ ok c.recipient_hash
    pub not_closed : c.closed ≡ false
    pub grows : c.id ≡ some p.id → c.amount <ℤ p.amount
    sender : Bytes
    pub address : Bytes
    sender_eq : chain.parse_uint160 p.sender ≡ ok sender
    address_eq : chain.to_address sender ≡ ok address
    pub switched : Claimer chain
    pub switched_eq :
        switch_channel chain p (record c { world = (chain.get_height c.world).1 })
        ≡ (ok tt, switched)
    sender_balance : ℤ
    balance_eq : (chain.balance address switched.world).0 ≡ ok sender_balance
    pub funds :
        wrap_i64 (p.amount +ℤ chain.fee x)
        ≤ℤ wrap_i64 (sender_balance +ℤ switched.prev_flush_amount)
    pub txn_expires : add_u32 (to_u32 height) receiver_expiration_delta < p.txn_expiration
    pub expires : add_u32 (to_u32 height) receiver_expiration_delta < p.nano_pay_expiration

  pub admit_lem :
      (x : Tx) (c c' : Claimer chain) (p : NanoPayData)
      → admit chain x c ≡ (ok p, c')
      → (height : ℤ) × (good : Accepted x height p c) × IsUpdate p c'
        × (c'.world ≡ (chain.balance good.address good.switched.world).1)
  unfolding admit
  admit_lem x c c' p h =
      let (height, s1, e1, h1) = >>=-eq-ok (on_world chain chain.get_height) _ c h in
      let (v, s2, e2, h2) =
        >>=-eq-ok (or_close chain (validate chain x (to_u32 height) s1.recipient_hash)) _ s1 h1 in
      let (valid, same) =
        or_close_ok (validate chain x (to_u32 height) s1.recipient_hash) s1 s2 v e2 in
      let (open_, q, update, grows, s, b, sw, bal, funds, last) =
        admit_valid_ok x (to_u32 height) v.0 p v.1 s2 c' h2 in
      let (unpacked, verified, recipient, sender, sender_eq, address_eq) =
        validate_ok chain x (to_u32 height) s1.recipient_hash v.0 v.1 valid in
      let (enough, txn_expires, expires) =
        check_funds_ok chain x (to_u32 height) v.0 b s.prev_flush_amount funds in
      let start : Claimer chain = record c { world = (chain.get_height c.world).1 } in
      let begun : start ≡ s2 = (λ i. (e1 i).1) ∙ same in
      let (good, u, w) =
        subst
          (λ z.
            (good : Accepted x height z c) × IsUpdate z c'
            × (c'.world ≡ (chain.balance good.address good.switched.world).1))
          (sym q)
          (
            record {
              asked = λ i. ((e1 i).0, (chain.get_height c.world).1);
              unpacked = unpacked;
              verified = verified;
              recipient = recipient ∙ ap ok (ap (λ s. s.recipient_hash) (sym (λ i. (e1 i).1)));
              not_closed = ap (λ s. s.closed) begun ∙ open_;
              grows = λ e.
                  subst (λ s. s.amount <ℤ v.0.amount) (sym begun)
                    (grows (ap (λ s. s.id) (sym begun) ∙ e));
              sender = sender;
              address = v.1;
              sender_eq = sender_eq;
              address_eq = address_eq;
              switched = s;
              switched_eq = ap (switch_channel chain v.0) begun ∙ sw;
              sender_balance = b;
              balance_eq = bal;
              funds = enough;
              txn_expires = txn_expires;
              expires = expires;
            },
            update,
            last,
          ) in
      (height, good, u, w)

  pub admit_ok :
      (x : Tx) (c c' : Claimer chain) (p : NanoPayData)
      → admit chain x c ≡ (ok p, c')
      → (pos 0 ≤ℤ p.amount) × IsUpdate p c'
  admit_ok x c c' p h =
      let (height, a, update, last) = admit_lem x c c' p h in
      (chain.verify-nonneg x (to_u32 height) p a.verified a.unpacked, update)
