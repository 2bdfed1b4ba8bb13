-- ===== src/Fixtures/Chain.antt =====
-- A chain on which a transaction is its payload with a fee, at height 100, with 1000 in every account.
use nkn_sdk_go.Base.{
  ℕ, suc, ◌≡◌, refl, length, subst, sym, ap, true, Option, some, [], Bool-cases, inl, inr, arith,
  if◌then◌else◌,
}
use nkn_sdk_go.Base.Int.{ℤ, pos, leb_ℤ, ◌≤ℤ◌}
use nkn_sdk_go.Base.Bytes.{Bytes}
use nkn_sdk_go.Errors.{Outcome, ok, err, external, ok-injective}
use nkn_sdk_go.NanoPay.{NanoPayData, Blockchain}

abbrev pub made : Bytes → Bytes → ℕ → ℤ → ℕ → NanoPayData
made s r id a e = record {
  sender = s;
  recipient = r;
  id = id;
  amount = a;
  txn_expiration = e;
  nano_pay_expiration = e;
}

abbrev pub check_amount : NanoPayData × ℤ → Outcome (Unit {0})
check_amount (p, f) = if leb_ℤ (pos 0) p.amount then ok tt else err (external (pos 1))

abbrev pub unpack_tx : NanoPayData × ℤ → Outcome (Option NanoPayData)
unpack_tx (p, f) = ok (some p)

leb_nonneg : (a : ℤ) → leb_ℤ (pos 0) a ≡ true → pos 0 ≤ℤ a
leb_nonneg a h = ground (arith, h)

pub check_amount-nonneg :
    (t : NanoPayData × ℤ) (p : NanoPayData)
    → check_amount t ≡ ok tt
    → unpack_tx t ≡ ok (some p)
    → pos 0 ≤ℤ p.amount
check_amount-nonneg (q, f) p h e =
    let same : q ≡ p = cc (ok-injective e) in
    elim (Bool-cases (leb_ℤ (pos 0) q.amount)) [
      | inl good ↦ subst (λ z. pos 0 ≤ℤ z.amount) same (leb_nonneg q.amount good)
      | inr bad ↦ cc (bad, h)
    ]

abbrev pub toy_chain : Blockchain ℕ
toy_chain = record {
  Tx = NanoPayData × ℤ;
  now = λ w. pos 0;
  get_height = λ w. (ok (pos 100), w);
  rand_uint64 = λ w. (w, suc w);
  parse_amount = λ b. ok (pos (length b));
  new_nano_pay = λ s r id a e. ok (made s r id a e, pos 0);
  set_fee = λ t f. (t.0, f);
  fee = λ t. t.1;
  sign = λ t. ok t;
  unpack = unpack_tx;
  verify = λ t h. check_amount t;
  parse_uint160 = λ b. ok b;
  to_address = λ b. ok b;
  to_script_hash = λ b. ok b;
  balance = λ b w. (ok (pos 1000), w);
  send_raw = λ t w. (ok [], suc w);
  unpack-new_nano_pay = λ s r id a e t h. ap unpack_tx (sym (ok-injective h));
  unpack-set_fee = λ t f. refl;
  unpack-sign = λ t u h. ap unpack_tx (sym (ok-injective h));
  verify-nonneg = λ t h p v u. check_amount-nonneg t p v u;
}
