-- ===== src/Encryption.antt =====
-- version-1/encryption.c: a buffer is encrypted in counter mode under a random initialisation vector,
-- which is sent in front of the ciphertext.
--
-- libtomcrypt is a parameter: `ctr key iv` is the result of `ctr_encrypt` and of `ctr_decrypt`, which
-- both exclusive-or the text with the key stream. The vector that `yarrow_read` gives is an argument.
-- CLEARTEXT is not defined.
pub mod RoundTrip
use cryptar.Prelude.{
  ℕ, zero, suc, ◌-◌, Option, none, some, List, [], ◌∷◌, ltb, ◌==◌, if◌then◌else◌, length, take,
  drop, Result, ok, fault, null_dereference, out_of_bounds, and_then,
}
use cryptar.Ios
use cryptar.Ios.{IosBuf}

-- The block length of AES, which is the size of the vector.
abbrev pub ivsize : ℕ
ivsize = 16

abbrev pub zeros : ℕ → List ℕ
zeros zero = []
zeros (suc n) = 0 ∷ zeros n

-- What `strncpy` writes for `n` bytes: from the first zero on, zeros.
unfoldable pub strncpy : ℕ → List ℕ → List ℕ
strncpy zero bytes = []
strncpy (suc n) [] = zeros (suc n)
strncpy (suc n) (b ∷ bytes) = if b == 0 then zeros (suc n) else b ∷ strncpy n bytes

module _ (ctr : List ℕ → List ℕ → List ℕ → List ℕ) (key : List ℕ) where
  -- `none` is the NULL that is returned for an empty buffer.
  unfoldable pub encrypt : List ℕ → IosBuf → Result (Option IosBuf)
  encrypt iv ios_in = and_then (Ios.append iv Ios.new) λ (_, ios_out). elim (Ios.buffer ios_in) [
    | none ↦ ok none
    | some bytes ↦
        (and_then (Ios.append (ctr key iv (take (Ios.buffer_size ios_in) bytes)) ios_out)
          λ (_, sealed). ok (some sealed))
  ]

  -- The vector is taken by `strncpy`, before the test for an empty buffer.
  unfoldable pub decrypt : IosBuf → Result IosBuf
  decrypt ios_in = elim (Ios.buffer ios_in) [
    | none ↦ fault null_dereference
    | some bytes ↦
        if ltb (Ios.buffer_size ios_in) ivsize
        then fault out_of_bounds
        else (let iv = strncpy ivsize bytes in
            let text = take (Ios.buffer_size ios_in - ivsize) (drop ivsize bytes) in
            and_then (Ios.append (ctr key iv text) Ios.new) λ (_, ios_out). ok ios_out)
  ]
