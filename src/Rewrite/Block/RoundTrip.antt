-- ===== src/Rewrite/Block/RoundTrip.antt =====
-- The contents of a DataBlock of src/block.cpp.
use cryptar.Prelude.{
  ℕ, ◌+◌, ◌^◌, ◌≤◌, ◌≡◌, refl, List, ◌++◌, length, ok, arith, length-append, drop-append,
  le→not_ltb,
}
use cryptar.Rewrite.System.{System}
use cryptar.Rewrite.Crypt.{CryptoLib, encrypt, pseudo_random_string}
use cryptar.Rewrite.Crypt.RoundTrip.{decrypt-encrypt}
use cryptar.Rewrite.Compress.{BzLib, compress}
use cryptar.Rewrite.Compress.RoundTrip.{decompress-compress}
use cryptar.Rewrite.Block.{Block, set_content, plain_text, salt_length}

-- The contents behind the salt of a call of the random pool.
abbrev pub salted : (lib : CryptoLib) (contents : List ℕ) (call : ℕ) → List ℕ
salted lib contents call = lib.random call salt_length ++ contents

module _ {Act : Type 0} (lib : CryptoLib) (bz : BzLib) (contents : List ℕ) where
  -- A block whose contents are set has them, if they are of less than 2 ^ 29 bytes with the salt and both
  -- libraries do their work.
  pub plain_text-set_content :
      (b : Block Act) (s : System) (packed sealed : List ℕ)
      → length contents + salt_length ≤ 2 ^ 29
      → compress bz (salted lib contents s.draws) ≡ ok packed
      → encrypt lib packed b.crypto_key ≡ ok sealed
      → (set_content lib bz contents b s
          ≡ ok (record b { cipher_text = sealed }, record s { draws = s.draws + 1 }))
        × (plain_text lib bz (record b { cipher_text = sealed }) ≡ ok contents)
  unfolding set_content plain_text pseudo_random_string
  plain_text-set_content b s packed sealed small pe se =
      let size = lib.length-random s.draws salt_length in
      let total = length-append (lib.random s.draws salt_length) contents in
      (
        rw (pe, se) refl,
        rw
            (
              decrypt-encrypt lib b.crypto_key packed sealed se,
              decompress-compress bz (salted lib contents s.draws) packed (omega arith) pe,
              le→not_ltb (length (salted lib contents s.draws)) salt_length (omega arith),
              drop-append salt_length (lib.random s.draws salt_length) contents size,
            )
            refl,
      )
