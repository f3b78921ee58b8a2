-- ===== src/Encryption/RoundTrip.antt =====
-- `encrypt` against `decrypt` of version-1/encryption.c.
use cryptar.Prelude.{
  ℕ, zero, suc, ◌+◌, ◌-◌, ◌^◌, ◌≤◌, ◌≡◌, ◌≢◌, refl, sym, ap, ap₂, ◌∙◌, some, List, [], ◌∷◌, ◌++◌,
  length, ok, arith, length-append, drop-append, take-all, le→not_ltb, eq→==, ne→not_==,
}
use native.Mathlib.Decide.{ℕ_discrete}
use cryptar.Ios
use cryptar.Ios.{IosBuf}
use cryptar.Ios.Valid.{IsValid, contents, new-IsValid, buffer_size-contents}
use cryptar.Ios.Appending.{append_lem}
use cryptar.Ios.Fields.{buffer-some}
use cryptar.Encryption.{zeros, strncpy, encrypt, decrypt}

strncpy-append : (n : ℕ) (iv rest : List ℕ) → length iv ≡ n → strncpy n (iv ++ rest) ≡ strncpy n iv
unfolding strncpy
strncpy-append zero iv rest h = refl
strncpy-append (suc n) [] rest h = absurd (omega arith)
strncpy-append (suc n) (b ∷ iv) rest h = ground (arith, strncpy-append n iv rest)

-- An append to a fresh buffer.
fresh :
    (bytes : List ℕ)
    → length bytes ≤ 2 ^ 30
    → (r : IosBuf) × (Ios.append bytes Ios.new ≡ ok (tt, r))
      × IsValid r
      × (contents r ≡ bytes)
      × (r.len ≤ length bytes)
fresh bytes h =
    let (r, e, a) = append_lem bytes new-IsValid (omega arith) in
    (r, e, a.valid, a.added, omega (arith, a.grown))

module _ (ctr : List ℕ → List ℕ → List ℕ → List ℕ) (key iv : List ℕ)
    (sized : (iv' text : List ℕ) → length (ctr key iv' text) ≡ length text)
    (full : length iv ≡ 16) where
  pub encrypt_lem :
      {ios : IosBuf} (b : ℕ) (bs : List ℕ)
      → IsValid ios
      → contents ios ≡ b ∷ bs
      → length (b ∷ bs) + 16 ≤ 2 ^ 30
      → (r : IosBuf) × (encrypt ctr key iv ios ≡ ok (some r))
        × IsValid r
        × (contents r ≡ iv ++ ctr key iv (b ∷ bs))
  unfolding encrypt
  encrypt_lem {ios} b bs v e fits =
      let (r, run, v', c, l) = fresh iv (omega arith) in
      let text : List ℕ = ctr key iv (b ∷ bs) in
      let (r', run', a) = append_lem {ios = r} text v' (omega (arith, sized iv (b ∷ bs))) in
      (
        r',
        rw (
          run,
          buffer-some b bs v e,
          buffer_size-contents v,
          e,
          take-all (length (b ∷ bs)) (b ∷ bs) (omega arith),
          run',
        ),
        a.valid,
        a.added ∙ ap (λ l. l ++ text) c,
      )

-- `decrypt` from what it sees of its buffer.
decrypt-eq :
    (ctr : List ℕ → List ℕ → List ℕ → List ℕ) (key iv c : List ℕ) (r p : IosBuf)
    → length iv ≡ 16
    → Ios.buffer r ≡ some (iv ++ c)
    → Ios.buffer_size r ≡ 16 + length c
    → Ios.append (ctr key (strncpy 16 iv) c) Ios.new ≡ ok (tt, p)
    → decrypt ctr key r ≡ ok p
unfolding decrypt
decrypt-eq ctr key iv c r p full first seen run =
    let left : 16 + length c - 16 ≡ length c = omega arith in
    rw (
      first,
      decrypt,
      seen,
      le→not_ltb (16 + length c) 16 (omega arith),
      left,
      strncpy-append 16 iv c full,
      drop-append 16 iv c full,
      take-all (length c) c (omega arith),
      run,
    )

pub decrypt_lem :
    (ctr : List ℕ → List ℕ → List ℕ → List ℕ) (key iv c : List ℕ) {r : IosBuf}
    → ((iv' text : List ℕ) → length (ctr key iv' text) ≡ length text)
    → length iv ≡ 16
    → IsValid r
    → contents r ≡ iv ++ c
    → length c ≤ 2 ^ 30
    → (p : IosBuf) × (decrypt ctr key r ≡ ok p)
      × IsValid p
      × (contents p ≡ ctr key (strncpy 16 iv) c)
decrypt_lem ctr key [] c sized full v e fits = absurd (omega arith)
decrypt_lem ctr key (i ∷ is) c {r} sized full v e fits =
    let bytes : List ℕ = (i ∷ is) ++ c in
    let size : length bytes ≡ 16 + length c = omega (arith, length-append (i ∷ is) c) in
    let seen : Ios.buffer_size r ≡ 16 + length c = buffer_size-contents v ∙ ap length e ∙ size in
    let (p, run, v', k, _) =
      fresh (ctr key (strncpy 16 (i ∷ is)) c) (omega (arith, sized (strncpy 16 (i ∷ is)) c)) in
    (p, decrypt-eq ctr key (i ∷ is) c r p full (buffer-some i (is ++ c) v e) seen run, v', k)

-- With a vector of 16 bytes and a cipher that keeps lengths, `encrypt` of a buffer that is not empty
-- succeeds, and `decrypt` of what it gives succeeds; the text that comes back is the ciphertext
-- deciphered under the vector as `strncpy` copies it. The buffer and the vector have at most 2 ^ 30
-- bytes together.
pub decrypt-encrypt :
    (ctr : List ℕ → List ℕ → List ℕ → List ℕ) (key iv : List ℕ) {ios : IosBuf} (b : ℕ) (bs : List ℕ)
    → ((iv' text : List ℕ) → length (ctr key iv' text) ≡ length text)
    → length iv ≡ 16
    → IsValid ios
    → contents ios ≡ b ∷ bs
    → length (b ∷ bs) + 16 ≤ 2 ^ 30
    → (sealed plain : IosBuf) × (encrypt ctr key iv ios ≡ ok (some sealed))
      × (decrypt ctr key sealed ≡ ok plain)
      × (contents plain ≡ ctr key (strncpy 16 iv) (ctr key iv (b ∷ bs)))
decrypt-encrypt ctr key iv b bs sized full v e fits =
    let (r, run, v', c) = encrypt_lem ctr key iv sized full b bs v e fits in
    let (p, run', _, k) =
      decrypt_lem ctr key iv (ctr key iv (b ∷ bs)) sized full v' c
        (omega (arith, sized iv (b ∷ bs))) in
    (r, p, run, run', k)

-- No zero byte of the vector has another byte behind it.
abbrev pub ZerosLast : List ℕ → Type 0
ZerosLast [] = Unit
ZerosLast (b ∷ bs) = (b ≢ 0 → ZerosLast bs) × (b ≡ 0 → bs ≡ zeros (length bs))

pub strncpy-ZerosLast : (n : ℕ) (iv : List ℕ) → length iv ≡ n → ZerosLast iv → strncpy n iv ≡ iv
unfolding strncpy
strncpy-ZerosLast zero [] h z = refl
strncpy-ZerosLast zero (b ∷ iv) h z = absurd (omega arith)
strncpy-ZerosLast (suc n) [] h z = absurd (omega arith)
strncpy-ZerosLast (suc n) (b ∷ iv) h z = elim (ℕ_discrete b 0) [
  | yes e ↦ rw (eq→== b 0 e) (ap₂ ◌∷◌ (sym e) (ap zeros (omega arith) ∙ sym (z.1 e)))
  | no d ↦ rw (ne→not_== b 0 d) (ap (λ l. b ∷ l) (strncpy-ZerosLast n iv (omega arith) (z.0 d)))
]

-- With a vector of 16 bytes that has no zero byte in front of another byte, and a cipher that keeps
-- lengths and undoes itself, `encrypt` of a buffer that is not empty succeeds, and `decrypt` of what
-- it gives succeeds and gives back the text. The buffer and the vector have at most 2 ^ 30 bytes
-- together.
pub decrypt-encrypt_self :
    (ctr : List ℕ → List ℕ → List ℕ → List ℕ) (key iv : List ℕ) {ios : IosBuf} (b : ℕ) (bs : List ℕ)
    → ((iv' text : List ℕ) → length (ctr key iv' text) ≡ length text)
    → ((iv' text : List ℕ) → ctr key iv' (ctr key iv' text) ≡ text)
    → length iv ≡ 16
    → ZerosLast iv
    → IsValid ios
    → contents ios ≡ b ∷ bs
    → length (b ∷ bs) + 16 ≤ 2 ^ 30
    → (sealed plain : IosBuf) × (encrypt ctr key iv ios ≡ ok (some sealed))
      × (decrypt ctr key sealed ≡ ok plain)
      × (contents plain ≡ contents ios)
decrypt-encrypt_self ctr key iv b bs sized undone full z v e fits =
    let (r, p, run, run', k) = decrypt-encrypt ctr key iv b bs sized full v e fits in
    (
      r,
      p,
      run,
      run',
      k
          ∙ ap (λ i. ctr key i (ctr key iv (b ∷ bs))) (strncpy-ZerosLast 16 iv full z)
          ∙ undone iv (b ∷ bs)
          ∙ sym e,
    )
