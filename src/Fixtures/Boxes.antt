-- ===== src/Fixtures/Boxes.antt =====
-- A box that carries a checksum of its nonce and key, and keys that are sums.
use nkn_sdk_go.Base.{
  ℕ, suc, ◌+◌, ◌==◌, ◌≡◌, refl, [], ◌∷◌, ◌++◌, Option, none, some, length, replicate, ==_refl,
  length-replicate, if◌then◌else◌, arith,
}
use nkn_sdk_go.Base.Bytes.{Bytes}
use nkn_sdk_go.Errors.{Outcome, ok}
use nkn_sdk_go.Message.{Nacl, overhead, shared_key_size}

abbrev pub sum : Bytes → ℕ
sum [] = 0
sum (x ∷ xs) = x + sum xs

abbrev checksum : Bytes → Bytes → ℕ
checksum n k = sum n + sum k

abbrev pub toy_seal : Bytes → Bytes → Bytes → Bytes
toy_seal m n k = checksum n k ∷ replicate 15 0 ++ m

abbrev body : Bytes → Bytes
body (_ ∷ _ ∷ _ ∷ _ ∷ _ ∷ _ ∷ _ ∷ _ ∷ _ ∷ _ ∷ _ ∷ _ ∷ _ ∷ _ ∷ _ ∷ m) = m
body c = c

abbrev pub toy_open : Bytes → Bytes → Bytes → Option Bytes
toy_open [] n k = none
toy_open (x ∷ c) n k = if x == checksum n k then some (body c) else none

pub length-toy_seal : (m n k : Bytes) → length (toy_seal m n k) ≡ length m + overhead
length-toy_seal m n k = omega arith

pub toy_open-toy_seal : (m n k : Bytes) → toy_open (toy_seal m n k) n k ≡ some m
toy_open-toy_seal m n k = rw (==_refl (checksum n k)) refl

abbrev pub toy_rand : ℕ → ℕ → Outcome Bytes × ℕ
toy_rand n w = (ok (replicate n w), suc w)

pub length-toy_rand : (n : ℕ) (w v : ℕ) (b : Bytes) → toy_rand n w ≡ (ok b, v) → length b ≡ n
length-toy_rand n w v b h = let e : replicate n w ≡ b = cc in rw (← e) (length-replicate n w)

abbrev pub toy_nacl : Nacl ℕ
toy_nacl = record {
  seal = toy_seal;
  open_box = toy_open;
  precompute = λ p s. replicate shared_key_size (sum p + sum s);
  to_curve = λ p. some p;
  rand = toy_rand;
  length-seal = length-toy_seal;
  open_box-seal = toy_open-toy_seal;
  length-rand = length-toy_rand;
  length-precompute = λ p s. length-replicate shared_key_size (sum p + sum s);
}
