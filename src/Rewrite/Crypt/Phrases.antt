-- ===== src/Rewrite/Crypt/Phrases.antt =====
-- `phrase_to_key` of src/crypt.cpp and the key that `encrypt` makes of its result.
use cryptar.Prelude.{
  ℕ, zero, suc, ◌+◌, ◌*◌, ◌≤◌, ◌≡◌, refl, ap, ◌∙◌, List, [], ◌∷◌, ◌++◌, length, take, arith,
  append_assoc, length-append, take-append_le, sym, append-nil,
}
use cryptar.Rewrite.Crypt.{CryptoLib, fit, hash_rounds, phrase_to_key, init_key}

-- Bytes that are enough are cut.
fit-long : (n : ℕ) (bytes : List ℕ) → n ≤ length bytes → fit n bytes ≡ take n bytes
unfolding fit
fit-long zero bytes h = refl
fit-long (suc n) [] h = absurd (omega arith)
fit-long (suc n) (b ∷ bytes) h = ap (λ t. b ∷ t) (fit-long n bytes (omega arith))

module _ (lib : CryptoLib) where
  -- The rounds add their digests behind the text.
  hash_rounds-prefix :
      (n : ℕ) (text : List ℕ)
      → (more : List ℕ) × (hash_rounds lib n text ≡ text ++ more) × (length more ≡ 32 * n)
  unfolding hash_rounds
  hash_rounds-prefix zero text = ([], sym (append-nil text), refl)
  hash_rounds-prefix (suc n) text =
      let (more, e, size) = hash_rounds-prefix n (text ++ lib.sha256 text) in
      (
        lib.sha256 text ++ more,
        e ∙ append_assoc text (lib.sha256 text) more,
        omega (arith, length-append (lib.sha256 text) more, lib.length-sha256 text),
      )

  -- The passphrase is the beginning of its key.
  pub phrase_to_key-append :
      (phrase : List ℕ)
      → (more : List ℕ) × (phrase_to_key lib phrase ≡ phrase ++ more) × (length more ≡ 1600)
  unfolding phrase_to_key
  phrase_to_key-append phrase = hash_rounds-prefix 50 phrase

  -- The key made of a passphrase is the passphrase itself with 1600 bytes of digests behind it, so the
  -- cipher's key for a passphrase of 16 bytes or more is its first 16 bytes.
  pub phrase_to_key-prefix :
      (phrase : List ℕ)
      → 16 ≤ length phrase
      → (init_key lib (phrase_to_key lib phrase) ≡ take 16 phrase)
        × (length (phrase_to_key lib phrase) ≡ length phrase + 1600)
  unfolding init_key
  phrase_to_key-prefix phrase h =
      let (more, e, size) = phrase_to_key-append phrase in
      let total = length-append phrase more in
      (
        rw e (fit-long 16 (phrase ++ more) (omega arith)) ∙ take-append_le 16 phrase more h,
        rw e (omega arith),
      )
