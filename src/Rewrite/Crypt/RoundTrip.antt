-- ===== src/Rewrite/Crypt/RoundTrip.antt =====
-- `encrypt` and `decrypt` of src/crypt.cpp.
use cryptar.Prelude.{
  ℕ, zero, suc, ◌≡◌, refl, Option, none, some, List, [], ◌∷◌, length, Result, ok, fault, thrown,
  runtime_error, arith, false,
}
use cryptar.Rewrite.Crypt.{
  CryptoLib, fit, init_key, init_iv, encrypt, decrypt, key_length, block_size, message_digest,
}

pub length-fit : (n : ℕ) (bytes : List ℕ) → length (fit n bytes) ≡ n
unfolding fit
length-fit zero bytes = refl
length-fit (suc n) [] = omega (arith, length-fit n [])
length-fit (suc n) (b ∷ bytes) = omega (arith, length-fit n bytes)

sealed_as :
    (o : Option (List ℕ)) (sealed : List ℕ)
    → (elim o [
      | none ↦ let r : Result (List ℕ) = fault (thrown runtime_error) in r
      | some t ↦ ok t
    ])
      ≡ ok sealed
    → o ≡ some sealed
sealed_as none sealed e = cc
sealed_as (some t) sealed e = cc

module _ (lib : CryptoLib) (password : List ℕ) where
  length-init_key : length (init_key lib password) ≡ key_length
  unfolding init_key
  length-init_key = length-fit key_length password

  length-init_iv : length (init_iv lib password) ≡ block_size
  unfolding init_iv
  length-init_iv = length-fit block_size (message_digest lib password false)

  -- What was encrypted under a password, whatever its length, is decrypted under it.
  pub decrypt-encrypt :
      (text sealed : List ℕ)
      → encrypt lib text password ≡ ok sealed
      → decrypt lib sealed password ≡ ok text
  unfolding encrypt decrypt
  decrypt-encrypt text sealed e =
      rw
        (
          decrypt,
          lib.decipher-cipher (init_key lib password) (init_iv lib password) text sealed
              length-init_key length-init_iv (sealed_as _ sealed e),
        )
        refl
