-- ===== src/Message/Box.antt =====
-- message.go: what `encrypt` makes, `decrypt` opens.
use nkn_sdk_go.Base.{◌≡◌, arith, length, ◌<◌}
use nkn_sdk_go.Base.Bytes.{Bytes}
use nkn_sdk_go.Errors.{ok, panic}
use nkn_sdk_go.Action.{>>=-eq-ok}
use nkn_sdk_go.Message.{Nacl, encrypt, decrypt, nonce_size, overhead}

module _ {W : Type 0} (nacl : Nacl W) where
  -- A sealed box is long enough not to panic, and opens to the message.
  pub decrypt-seal : (m n k : Bytes) → decrypt nacl (nacl.seal m n k) n k ≡ ok m
  unfolding decrypt
  decrypt-seal m n k = rw (nacl.length-seal m n k, nacl.open_box-seal m n k) (ground arith)

  -- What `encrypt` returns.
  pub encrypt_result :
      (m k c n : Bytes) (w v : W)
      → encrypt nacl m k w ≡ (ok (c, n), v)
      → (length n ≡ nonce_size) × (c ≡ nacl.seal m n k)
  unfolding encrypt
  encrypt_result m k c n w v h =
      let (nonce, w', q, r) = >>=-eq-ok (nacl.rand nonce_size) _ w h in
      let e : n ≡ nonce = cc in (rw e (nacl.length-rand nonce_size w w' nonce q), rw e (cc))

  -- A box shorter than the overhead makes `decrypt` panic.
  pub decrypt-panic : (m n k : Bytes) → length m < overhead → decrypt nacl m n k ≡ panic
  unfolding decrypt
  decrypt-panic m n k h = ground arith
