-- ===== src/NanoPay/Payer/Increment.antt =====
-- nanopay.go: what a transaction of the payer is for.
use nkn_sdk_go.Base.{◌≡◌, sym, ap, ◌∙◌, some, if◌then◌else◌}
use nkn_sdk_go.Base.Int.{ℤ}
use nkn_sdk_go.Base.Bytes.{Bytes}
use nkn_sdk_go.Errors.{ok}
use nkn_sdk_go.Action.{lift, >>=-eq-ok}
use nkn_sdk_go.Message.{is_nil}
use nkn_sdk_go.NanoPay.{Blockchain, NanoPayData}
use nkn_sdk_go.NanoPay.Payer.{
  NanoPay, current_height, renew_channel, raise_amount, channel_tx, increment_amount,
}

module _ {W : Type 0} (chain : Blockchain W) where
  open chain use {Tx, unpack, parse_amount, new_nano_pay, sign, set_fee}

  abbrev pub state_of : NanoPay W → NanoPayData
  state_of np = record {
    sender = np.sender;
    recipient = np.recipient;
    id = np.id;
    amount = np.amount;
    txn_expiration = np.expiration;
    nano_pay_expiration = np.expiration;
  }

  channel_tx_lem :
      (fee : Bytes) (np np' : NanoPay W) (tx : Tx)
      → channel_tx chain fee np ≡ (ok tx, np')
      → (unpack tx ≡ ok (some (state_of np))) × (np' ≡ np)
  unfolding channel_tx
  channel_tx_lem fee np np' tx h =
      let (t, s1, e1, h1) =
        >>=-eq-ok (λ s. (new_nano_pay s.sender s.recipient s.id s.amount s.expiration, s)) _ np h in
      let (f, s2, e2, h2) =
        >>=-eq-ok (λ s. (if is_nil fee then ok s.default_fee else parse_amount fee, s)) _ s1 h1 in
      (
        chain.unpack-sign (set_fee t f) tx (λ i. (h2 i).0)
            ∙ chain.unpack-set_fee t f
            ∙ chain.unpack-new_nano_pay _ _ _ _ _ t (λ i. (e1 i).0),
        sym ((λ i. (e1 i).1) ∙ (λ i. (e2 i).1) ∙ (λ i. (h2 i).1)),
      )

  -- A successful call returns a transaction for the channel's new state: that of the old channel, or
  -- of a new one with amount 0 if the old one was missing or about to expire at the height that the
  -- node gave (or 0, if it gave none), with the amount raised by the parsed delta.
  pub increment_amount_lem :
      (delta fee : Bytes) (np np' : NanoPay W) (tx : Tx)
      → increment_amount chain delta fee np ≡ (ok tx, np')
      → (height : ℤ) × (d : ℤ) × (np1 : NanoPay W) × (current_height chain np ≡ (ok height, np1))
        × (parse_amount delta ≡ ok d)
        × (np' ≡ raise_amount chain d (renew_channel chain height np1))
        × (unpack tx ≡ ok (some (state_of np')))
  unfolding increment_amount raise_amount
  increment_amount_lem delta fee np np' tx h =
      let (height, np1, e1, h1) = >>=-eq-ok (current_height chain) _ np h in
      let (d, np2, e2, h2) =
        >>=-eq-ok (lift (parse_amount delta)) _ (renew_channel chain height np1) h1 in
      let (unpacked, same) = channel_tx_lem fee (raise_amount chain d np2) np' tx h2 in
      (
        height,
        d,
        np1,
        e1,
        (λ i. (e2 i).0),
        same ∙ ap (raise_amount chain d) (sym (λ i. (e2 i).1)),
        unpacked ∙ ap (λ n. ok (some (state_of n))) (sym same),
      )
