-- ===== src/Tests/Ciphers.antt =====
-- Encryption with a cipher that complements its text byte by byte.
use cryptar.Prelude.{
  ℕ, zero, suc, ◌≡◌, ◌+◌, refl, ap, sym, ap₂, Option, none, some, List, [], ◌∷◌, length, ok, arith,
}
use cryptar.Ios.{IosBuf}
use cryptar.Ios.Valid.{contents}
use cryptar.Encryption.{encrypt, decrypt, strncpy}
use cryptar.Encryption.RoundTrip.{decrypt-encrypt, ZerosLast}
use cryptar.Ios.Buffers.{Holds}
use cryptar.Process.{Env, seal, unseal}
use cryptar.Process.Sealing.{IsReversible, unseal-seal}
use cryptar.Tests.Processes.{an_env, a_process}

-- Exchanges zero and one.
abbrev flip : ℕ → ℕ
flip zero = 1
flip (suc zero) = 0
flip (suc (suc n)) = suc (suc n)

flip-flip : (n : ℕ) → flip (flip n) ≡ n
flip-flip zero = refl
flip-flip (suc zero) = refl
flip-flip (suc (suc n)) = refl

abbrev cipher : List ℕ → List ℕ → List ℕ → List ℕ
cipher key iv [] = []
cipher key iv (b ∷ bs) = flip b ∷ cipher key iv bs

length-cipher : (key iv text : List ℕ) → length (cipher key iv text) ≡ length text
length-cipher key iv [] = refl
length-cipher key iv (b ∷ bs) = omega (arith, length-cipher key iv bs)

cipher-cipher : (key iv text : List ℕ) → cipher key iv (cipher key iv text) ≡ text
cipher-cipher key iv [] = refl
cipher-cipher key iv (b ∷ bs) = ap₂ ◌∷◌ (flip-flip b) (cipher-cipher key iv bs)

abbrev plain_text : IosBuf
plain_text = record { buf = 0 ∷ 65 ∷ 66 ∷ []; len = 3; read_ptr = 0; alloc_len = 1024 }

abbrev vector : List ℕ
vector = 9 ∷ 8 ∷ 7 ∷ 6 ∷ 5 ∷ 4 ∷ 3 ∷ 2 ∷ 1 ∷ 2 ∷ 3 ∷ 4 ∷ 5 ∷ 6 ∷ 7 ∷ 0 ∷ []

decrypt-encrypt_example :
    (sealed plain : IosBuf) × (encrypt cipher (1 ∷ []) vector plain_text ≡ ok (some sealed))
    × (decrypt cipher (1 ∷ []) sealed ≡ ok plain)
    × (contents plain
        ≡ cipher (1 ∷ []) (strncpy 16 vector) (cipher (1 ∷ []) vector (0 ∷ 65 ∷ 66 ∷ [])))
decrypt-encrypt_example =
    decrypt-encrypt cipher (1 ∷ []) vector 0 (65 ∷ 66 ∷ []) (length-cipher (1 ∷ [])) refl
      (omega arith) refl (omega arith)

-- A packer that puts a byte in front.
abbrev behind : List ℕ → ℕ → Option (List ℕ)
behind [] n = none
behind (b ∷ text) n = some text

or_none : Option (List ℕ) → List ℕ
or_none none = []
or_none (some bytes) = bytes

abbrev sealing : Env
sealing = record an_env {
  compress = λ text. some (120 ∷ text);
  uncompress = behind;
  ctr = cipher;
  key = 1 ∷ [];
  yarrow = λ n. vector;
}

sealing-IsReversible : IsReversible sealing
unfolding or_none
sealing-IsReversible = record {
  uncompress-compress = λ text packed n e h. ap (λ o. behind (or_none o) n) (sym e);
  sized = length-cipher (1 ∷ []);
  undone = cipher-cipher (1 ∷ []);
}

vector-ZerosLast : ZerosLast vector
vector-ZerosLast = ground arith

unseal-seal_example :
    (sealed plain : IosBuf) × (seal sealing (65 ∷ 66 ∷ []) a_process
      ≡ ok (sealed, record a_process { draws = a_process.draws + 1 }))
    × (unseal sealing sealed 2 ≡ ok plain)
    × Holds (65 ∷ 66 ∷ []) plain
unseal-seal_example =
    unseal-seal sealing (65 ∷ 66 ∷ []) (65 ∷ 66 ∷ []) 120 2 a_process sealing-IsReversible refl
      vector-ZerosLast refl (omega arith) (omega arith) (omega arith) (omega arith)
