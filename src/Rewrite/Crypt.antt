-- ===== src/Rewrite/Crypt.antt =====
-- src/crypt.h and src/crypt.cpp: digests, keys, random text and encryption.
--
-- Crypto++ is a parameter. `none` is an exception of it; CIPHER is AES and CIPHER_MODE is CBC_Mode.
pub mod RoundTrip
pub mod Phrases
pub mod Names
use cryptar.Prelude.{
  ℕ, zero, suc, ◌+◌, ◌-◌, ◌≡◌, Bool, true, false, Option, none, some, List, [], ◌∷◌, ◌++◌, ◌==◌,
  if◌then◌else◌, length, take, Result, ok, fault, thrown, runtime_error, State, pure, get, put,
  ◌>>=◌, ◌>>◌,
}
use cryptar.Rewrite.System.{System}

-- AES::DEFAULT_KEYLENGTH and AES::BLOCKSIZE.
abbrev pub key_length : ℕ
key_length = 16

abbrev pub block_size : ℕ
block_size = 16

pub record CryptoLib : Type 0 where
  pub sha256 : List ℕ → List ℕ
  pub base64 : List ℕ → List ℕ
  pub cipher : (key iv text : List ℕ) → Option (List ℕ)
  pub decipher : (key iv text : List ℕ) → Option (List ℕ)
  -- The bytes of a call of `GenerateBlock`.
  pub random : (call size : ℕ) → List ℕ
  pub length-sha256 : (message : List ℕ) → length (sha256 message) ≡ 32
  pub length-random : (call size : ℕ) → length (random call size) ≡ size
  pub decipher-cipher :
      (key iv text sealed : List ℕ)
      → length key ≡ key_length
      → length iv ≡ block_size
      → cipher key iv text ≡ some sealed
      → decipher key iv sealed ≡ some text

-- `bzero` of `n` bytes, then `memcpy` of as many as there are.
unfoldable pub fit : ℕ → List ℕ → List ℕ
fit zero bytes = []
fit (suc n) [] = 0 ∷ fit n []
fit (suc n) (b ∷ bytes) = b ∷ fit n bytes

-- The hack around the line feed at the end; the encoding of a digest is never empty.
unfoldable pub drop_newline : List ℕ → List ℕ
drop_newline [] = []
drop_newline (b ∷ []) = if b == 10 then [] else b ∷ []
drop_newline (b ∷ c ∷ bytes) = b ∷ drop_newline (c ∷ bytes)

-- `replace` and `replace_copy` of '/' by '_'.
unfoldable pub replace_slashes : List ℕ → List ℕ
replace_slashes [] = []
replace_slashes (b ∷ bytes) = (if b == 47 then 95 else b) ∷ replace_slashes bytes

-- `erase(--end())`.
unfoldable pub drop_last : List ℕ → List ℕ
drop_last [] = []
drop_last (b ∷ []) = []
drop_last (b ∷ c ∷ bytes) = b ∷ drop_last (c ∷ bytes)

module _ (lib : CryptoLib) where
  open lib use {sha256, base64, cipher, decipher, random}

  unfoldable pub message_digest : (message : List ℕ) (filesystem_safe : Bool) → List ℕ
  message_digest message filesystem_safe =
      let digest = drop_newline (base64 (sha256 message)) in
      if filesystem_safe then replace_slashes digest else digest

  -- A `StringSink` appends to its string.
  unfoldable pub hash_rounds : ℕ → List ℕ → List ℕ
  hash_rounds zero digest = digest
  hash_rounds (suc n) digest = hash_rounds n (digest ++ sha256 digest)

  unfoldable pub phrase_to_key : List ℕ → List ℕ
  phrase_to_key in_phrase = hash_rounds 50 in_phrase

  -- `init_key_iv`. The vector is copied up to the length of a key, which is that of a block.
  unfoldable pub init_key : List ℕ → List ℕ
  init_key password = fit key_length password

  unfoldable pub init_iv : List ℕ → List ℕ
  init_iv password = fit block_size (message_digest password false)

  unfoldable pub encrypt : (plain_text password : List ℕ) → Result (List ℕ)
  encrypt plain_text password = elim (cipher (init_key password) (init_iv password) plain_text) [
    | none ↦ fault (thrown runtime_error)
    | some cipher_text ↦ ok cipher_text
  ]

  unfoldable pub decrypt : (cipher_text password : List ℕ) → Result (List ℕ)
  decrypt cipher_text password =
      elim (decipher (init_key password) (init_iv password) cipher_text) [
        | none ↦ fault (thrown runtime_error)
        | some plain_text ↦ ok plain_text
      ]

  unfoldable pub pseudo_random_string : ℕ → State System (List ℕ)
  pseudo_random_string size = do
    s ← get
    put (record s { draws = s.draws + 1 })
    pure (random s.draws size)

  -- The bits that are used, drawn if none are given.
  unfoldable pub bits_or_random : List ℕ → State System (List ℕ)
  bits_or_random [] = pseudo_random_string 40
  bits_or_random (b ∷ bits) = pure (b ∷ bits)

  unfoldable pub filename_from_random_bits : List ℕ → State System (List ℕ)
  filename_from_random_bits in_random = do
    bits ← bits_or_random in_random
    pure (drop_last (replace_slashes (base64 bits)))
