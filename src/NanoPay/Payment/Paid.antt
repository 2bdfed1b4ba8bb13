-- ===== src/NanoPay/Payment/Paid.antt =====
-- nanopay.go: payments one after the other, over the renewals of the channel.
use nkn_sdk_go.Base.{◌<◌, ◌≡◌, refl, sym, ap, ◌∙◌, subst, false, some, inl, inr, arith}
use nkn_sdk_go.Base.Int.{ℤ, pos, ◌+ℤ◌, ◌<ℤ◌, IsInt64, wrap_i64, wrap_i64_lem, to_u32}
use nkn_sdk_go.Base.Bytes.{Bytes}
use nkn_sdk_go.Errors.{ok}
use nkn_sdk_go.NanoPay.{Blockchain, add_u32, sender_expiration_delta, receiver_expiration_delta}
use nkn_sdk_go.NanoPay.Payer.{NanoPay, create_payer, is_expired, renew_channel, raise_amount}
use nkn_sdk_go.NanoPay.Payer.Increment.{state_of}
use nkn_sdk_go.NanoPay.Payer.Expiry.{
  create_payer_lem, no_channel_expired, renewed, kept, renew_channel-Lasts,
}
use nkn_sdk_go.NanoPay.Claimer.{Claimer, create_claimer, claim}
use nkn_sdk_go.NanoPay.Claimer.Accepts.{claimed, claim_accepts, create_claimer_lem}
use nkn_sdk_go.NanoPay.Payment.{
  InStep, Moves, Payment, Carries, incremented, grown, regroup, margin, stays, leaves,
}

module _ {W : Type 0} (chain : Blockchain W) where
  open chain use {Tx}

  kept_id :
      (h d : ℤ) (np np' : NanoPay W)
      → np' ≡ raise_amount chain d (renew_channel chain h np)
      → is_expired chain h np ≡ false
      → np.id ≡ np'.id
  unfolding raise_amount
  kept_id h d np np' e k = ap (λ x. x.id) (sym (kept chain h np k)) ∙ ap (λ x. x.id) (sym e)

  carried :
      (h d t : ℤ) (np np' : NanoPay W) (c after : Claimer chain)
      → np' ≡ raise_amount chain d (renew_channel chain h np)
      → np'.amount ≡ (renew_channel chain h np).amount +ℤ d
      → pos 0 <ℤ d
      → InStep chain np c
      → c.prev_claimed_amount +ℤ c.amount ≡ t
      → IsInt64 t
      → Moves chain h np np' c after
      → Carries chain (state_of chain np') (renew_channel chain h np).amount c after t
  carried h d t np np' c after e a p (inl (n, z, x)) s b (inl (k, same)) =
      let new = renewed chain h np (no_channel_expired chain h np x) in
      stays chain (state_of chain np') _ t c after (inl n) (new ∙ sym z) s same
  carried h d t np np' c after e a p (inl (n, z, x)) s b (inr (k, i, f, m, o, u, r)) =
      absurd (cc (n, m))
  carried h d t np np' c after e a p (inr (m, z)) s b (inl (inl n, same)) = absurd (cc (n, m))
  carried h d t np np' c after e a p (inr (m, z)) s b (inl (inr k, same)) =
      let old : (renew_channel chain h np).amount ≡ c.amount =
        ap (λ x. x.amount) (kept chain h np k) ∙ sym z in
      let grows : c.amount <ℤ np'.amount =
        subst (λ x. c.amount <ℤ x) (sym (a ∙ ap (λ x. x +ℤ d) old)) (grown chain c.amount d p) in
      stays chain (state_of chain np') _ t c after
        (inr (m ∙ ap some (kept_id h d np np' e k), grows)) old s same
  carried h d t np np' c after e a p (inr (m, z)) s b (inr (k, i, f, is, n, flushed, same)) =
      subst (λ x. Carries chain (state_of chain np') x c after t) (sym (renewed chain h np k))
        (leaves chain (state_of chain np') t i c f after is n flushed same s b)

  -- The claimer takes the transaction of a payment; its total rises by the delta, and it is in step
  -- with the payer again.
  step :
      (np np' : NanoPay W) (c : Claimer chain) (tx : Tx) (d t : ℤ)
      → InStep chain np c
      → c.prev_claimed_amount +ℤ c.amount ≡ t
      → IsInt64 t
      → (s : Payment chain np np' c tx d) → IsInt64 (t +ℤ d)
      → (claim chain tx c
          ≡ (ok (t +ℤ d), claimed chain tx (state_of chain np') s.ready.balance_world s.after))
        × (s.after.prev_claimed_amount +ℤ np'.amount ≡ t +ℤ d)
  unfolding raise_amount
  step np np' c tx d t in_step total b s b' =
      let h : ℤ = pos s.height in
      let np0 : NanoPay W = record np { world = s.height_world } in
      let at : Claimer chain = record c { world = s.claim_world } in
      let (same, unpacked) =
        incremented chain s.delta s.fee np np' tx h d s.height_world s.paid s.height_known
          s.delta_parsed in
      let raised : np'.amount ≡ (renew_channel chain h np0).amount +ℤ d =
        ap (λ x. x.amount) same ∙ wrap_i64_lem _ s.fits in
      let (switches, old, kept_total) =
        carried h d t np0 np' at s.after same raised s.positive in_step total b s.moves in
      let m = margin chain s.height s.claim_height s.in_range s.in_time in
      let lasts : add_u32 (to_u32 h) sender_expiration_delta < np'.expiration =
        subst (λ x. add_u32 (to_u32 h) sender_expiration_delta < x.expiration) (sym same)
          (renew_channel-Lasts chain h np0 s.lasts) in
      let late : add_u32 (to_u32 (pos s.claim_height)) receiver_expiration_delta < np'.expiration =
        omega arith in
      let sum : s.after.prev_claimed_amount +ℤ np'.amount ≡ t +ℤ d =
        ap (λ x. s.after.prev_claimed_amount +ℤ x) (raised ∙ ap (λ x. x +ℤ d) old)
        ∙ regroup chain s.after.prev_claimed_amount s.after.amount d
        ∙ ap (λ x. x +ℤ d) kept_total in
      (
        claim_accepts chain tx (pos s.claim_height) s.claim_world (state_of chain np') c s.after
              s.ready unpacked switches late late
            ∙ ap (λ x. (ok x, claimed chain tx (state_of chain np') s.ready.balance_world s.after))
                (ap wrap_i64 sum ∙ wrap_i64_lem (t +ℤ d) b'),
        sum,
      )

  -- A payer and a claimer, from when they were made, after payments of a total of `t`; in between, what
  -- is flushed and the worlds may change.
  pub data Paid : NanoPay W → Claimer chain → ℤ → Type 0 where
    begins :
        (sender recipient fee min_flush_amount : Bytes) (duration : ℤ) (w w' v v' : W)
        (np : NanoPay W) (c : Claimer chain)
        → create_payer chain sender recipient fee duration w ≡ (ok np, w')
        → create_claimer chain recipient min_flush_amount v ≡ (ok c, v')
        → Paid np c (pos 0)
    pays :
        (np np' : NanoPay W) (c c' : Claimer chain) (tx : Tx) (d t a : ℤ)
        → Paid np c t
        → Payment chain np np' c tx d
        → IsInt64 (t +ℤ d)
        → claim chain tx c ≡ (ok a, c')
        → Paid np' c' (t +ℤ d)
    rests :
        (np : NanoPay W) (w : W) (c c' : Claimer chain) (t : ℤ)
        → Paid np c t
        → c'.id ≡ c.id
        → c'.amount ≡ c.amount
        → c'.prev_claimed_amount ≡ c.prev_claimed_amount
        → Paid (record np { world = w }) c' t

  -- What holds of a payer and a claimer between payments.
  pub record Agrees (np : NanoPay W) (c : Claimer chain) (t : ℤ) : Type 0 where
    pub in_step : InStep chain np c
    pub total : c.prev_claimed_amount +ℤ c.amount ≡ t
    pub in_range : IsInt64 t

  no_sum : pos 0 +ℤ pos 0 ≡ pos 0
  unfolding ◌+ℤ◌
  no_sum = refl

  Paid-Agrees : (np : NanoPay W) (c : Claimer chain) (t : ℤ) → Paid np c t → Agrees np c t
  Paid-Agrees _ _ _ (begins sender recipient fee min_flush_amount duration w w' v v' np c e e') =
      let (n, z, p) = create_claimer_lem chain recipient min_flush_amount v v' c e' in
      let new = create_payer_lem chain sender recipient fee duration w w' np e in
      record {
        in_step = inl (n, z, new);
        total = (λ j. p j +ℤ z j) ∙ no_sum;
        in_range = (omega arith, omega arith);
      }
  Paid-Agrees _ _ _ (pays np np' c c' tx d t a before s b claims) =
      let good = Paid-Agrees np c t before in
      let (done, sum) = step np np' c tx d t good.in_step good.total good.in_range s b in
      subst (λ x. Agrees np' x (t +ℤ d)) (λ i. ((sym done ∙ claims) i).1)
        (record { in_step = inr (refl, refl); total = sum; in_range = b })
  Paid-Agrees _ _ _ (rests np w c c' t before i a p) =
      let good = Paid-Agrees np c t before in
      record {
        in_step = elim good.in_step [
          | inl (n, z, e) ↦ inl (i ∙ n, a ∙ z, e)
          | inr (m, z) ↦ inr (i ∙ m, a ∙ z)
        ];
        total = (λ j. p j +ℤ a j) ∙ good.total;
        in_range = good.in_range;
      }

  -- After any number of payments, over renewals of the channel, the claimer accepts the next transaction
  -- of the payer and returns the sum of what was paid, the delta of this one included, and the channel
  -- of the transaction is its state: if the payment is one that the claimer is ready for, at most two
  -- blocks after the payer has asked for the height, new channels last for more than five blocks and have
  -- new numbers, what is left is flushed without an error, and the sum is an int64.
  pub claim-Paid :
      (np np' : NanoPay W) (c : Claimer chain) (tx : Tx) (d t : ℤ)
      → Paid np c t
      → Payment chain np np' c tx d
      → IsInt64 (t +ℤ d)
      → (c' : Claimer chain) × (claim chain tx c ≡ (ok (t +ℤ d), c'))
        × Paid np' c' (t +ℤ d)
        × (c'.tx ≡ some tx)
        × (c'.id ≡ some np'.id)
        × (c'.amount ≡ np'.amount)
  claim-Paid np np' c tx d t before s b =
      let good = Paid-Agrees np c t before in
      let (done, sum) = step np np' c tx d t good.in_step good.total good.in_range s b in
      (_, done, pays np np' c _ tx d t (t +ℤ d) before s b done, refl, refl, refl)
