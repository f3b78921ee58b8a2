-- ===== src/Checksum/Weak.antt =====
-- `WCsum_get` of version-1/checksum.c, as sums over 32-bit words.
use cryptar.Prelude.{
  ℕ, zero, suc, ◌+◌, ◌*◌, ◌/◌, ◌%◌, ◌^◌, ◌≡◌, ◌<◌, refl, ◌∙◌, ap, List, [], ◌∷◌, length, ok, arith,
  lt→ltb, le→not_ltb, word, sub32,
}
use cryptar.Checksum.{char4_to_int32, join, get_loop, wc_sum_get}

-- The bytes as words, four at a time.
unfoldable pub words : (ℕ → ℕ) → List ℕ → List ℕ
words plain (a ∷ b ∷ c ∷ d ∷ p) = char4_to_int32 plain a b c d ∷ words plain p
words plain _ = []

abbrev pub sum : List ℕ → ℕ
sum [] = 0
sum (w ∷ ws) = w + sum ws

-- Each word weighted with the number of words from it to the end.
abbrev pub weighted_sum : List ℕ → ℕ
weighted_sum [] = 0
weighted_sum (w ∷ ws) = suc (length ws) * w + weighted_sum ws

-- The weak checksum of a block of words.
unfoldable pub checksum : List ℕ → ℕ
checksum ws = join (sum ws) (weighted_sum ws)

pub length-words :
    (plain : ℕ → ℕ) (n : ℕ) (bs : List ℕ) → length bs ≡ 4 * n → length (words plain bs) ≡ n
unfolding words
length-words plain zero [] h = refl
length-words plain zero (a ∷ bs) h = absurd (omega arith)
length-words plain (suc n) (a ∷ b ∷ c ∷ d ∷ bs) h = ap suc (length-words plain n bs (omega arith))
length-words plain (suc n) [] h = absurd (omega arith)
length-words plain (suc n) (a ∷ []) h = absurd (omega arith)
length-words plain (suc n) (a ∷ b ∷ []) h = absurd (omega arith)
length-words plain (suc n) (a ∷ b ∷ c ∷ []) h = absurd (omega arith)

record Summed (ws : List ℕ) (s1 s2 : ℕ) (t : ℕ × ℕ) : Type 0 where
  low : t.0 % 2 ^ 16 ≡ (s1 + sum ws) % 2 ^ 16
  high : t.1 % 2 ^ 16 ≡ (s2 + weighted_sum ws) % 2 ^ 16

get_loop-Summed :
    (plain : ℕ → ℕ) (n : ℕ) (bs : List ℕ) (i len s1 s2 : ℕ)
    → length bs ≡ 4 * n
    → i % 4 ≡ 0
    → i + 4 * n ≡ len
    → len < 2 ^ 16
    → (t : ℕ × ℕ) × (get_loop plain bs i len s1 s2 ≡ ok t) × Summed (words plain bs) s1 s2 t
unfolding get_loop words
get_loop-Summed plain zero [] i len s1 s2 h m e small = (
  (s1, s2),
  rw (le→not_ltb i len (omega arith)),
  record { low = omega arith; high = omega arith },
)
get_loop-Summed plain zero (a ∷ bs) i len s1 s2 h m e small = absurd (omega arith)
get_loop-Summed plain (suc n) (a ∷ b ∷ c ∷ d ∷ bs) i len s1 s2 h m e small =
    let w : ℕ = char4_to_int32 plain a b c d in
    let k : sub32 (len / 4) (i / 4) ≡ suc n = omega arith in
    let (t, run, p) =
      get_loop-Summed plain n bs (i + 4) len ((s1 + w) % word)
        ((s2 + sub32 (len / 4) (i / 4) * w) % word) (omega arith) (omega arith) (omega arith)
        small in
    (
      t,
      rw (lt→ltb i len (omega arith)) run,
      record {
        low = omega (arith, p.low);
        high = rw (length-words plain n bs (omega arith)) (
            let q : t.1 % 2 ^ 16
                ≡ ((s2 + suc n * w) % word + weighted_sum (words plain bs)) % 2 ^ 16 =
              p.high ∙ ap (λ c. ((s2 + c * w) % word + weighted_sum (words plain bs)) % 2 ^ 16) k in
            omega (arith, q));
      },
    )
get_loop-Summed plain (suc n) [] i len s1 s2 h m e small = absurd (omega arith)
get_loop-Summed plain (suc n) (a ∷ []) i len s1 s2 h m e small = absurd (omega arith)
get_loop-Summed plain (suc n) (a ∷ b ∷ []) i len s1 s2 h m e small = absurd (omega arith)
get_loop-Summed plain (suc n) (a ∷ b ∷ c ∷ []) i len s1 s2 h m e small = absurd (omega arith)

-- On a whole number of words, fewer than 2 ^ 16 bytes, `WCsum_get` reads no byte outside of the
-- block, and returns the low halves of the sum and of the weighted sum of the words.
pub wc_sum_get-checksum :
    (plain : ℕ → ℕ) (n : ℕ) (bs : List ℕ)
    → length bs ≡ 4 * n
    → 4 * n < 2 ^ 16
    → wc_sum_get plain bs (4 * n) ≡ ok (checksum (words plain bs))
unfolding wc_sum_get checksum
wc_sum_get-checksum plain n bs h small =
    let (t, run, p) =
      get_loop-Summed plain n bs 0 (4 * n) 0 0 h (omega arith) (omega arith) small in
    rw run (ap ok (omega (arith, p.low, p.high)))
