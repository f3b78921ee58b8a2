-- ===== src/Checksum/Rolling.antt =====
-- `WCsum_update` against `WCsum_get` of version-1/checksum.c.
use cryptar.Prelude.{
  ℕ, zero, suc, ◌+◌, ◌*◌, ◌/◌, ◌^◌, ◌≡◌, ◌<◌, refl, sym, ◌∙◌, ap, ap₂, List, [], ◌∷◌, ◌++◌, length,
  ok, arith, length-append,
}
use cryptar.Checksum.{
  char4_to_int32, schar, join, wc_sum_get, wc_sum_update, signed_word, update_sums,
}
use cryptar.Checksum.Weak.{words, sum, weighted_sum, checksum, length-words, wc_sum_get-checksum}

-- The last word of a list counts once in the sum; the others weigh one more.
sum-append : (ws : List ℕ) (w : ℕ) → sum (ws ++ (w ∷ [])) ≡ sum ws + w
sum-append [] w = omega arith
sum-append (v ∷ ws) w = omega (arith, sum-append ws w)

weighted_sum-append :
    (ws : List ℕ) (w : ℕ) → weighted_sum (ws ++ (w ∷ [])) ≡ weighted_sum ws + sum ws + w
weighted_sum-append [] w = omega arith
weighted_sum-append (v ∷ ws) w =
    omega (arith, weighted_sum-append ws w, ap (λ n. n * v) (length-append ws (w ∷ [])))

words-append :
    (n : ℕ) (bs cs : List ℕ)
    → length bs ≡ 4 * n
    → words schar (bs ++ cs) ≡ words schar bs ++ words schar cs
unfolding words
words-append zero [] cs h = refl
words-append zero (a ∷ bs) cs h = absurd (omega arith)
words-append (suc n) (a ∷ b ∷ c ∷ d ∷ bs) cs h =
    ap (λ t. char4_to_int32 schar a b c d ∷ t) (words-append n bs cs (omega arith))
words-append (suc n) [] cs h = absurd (omega arith)
words-append (suc n) (a ∷ []) cs h = absurd (omega arith)
words-append (suc n) (a ∷ b ∷ []) cs h = absurd (omega arith)
words-append (suc n) (a ∷ b ∷ c ∷ []) cs h = absurd (omega arith)

-- The two halves, each modulo 2 ^ 16, with the products as unknowns.
update_sums-join :
    (old new s w nw k : ℕ)
    → nw ≡ suc k * old
    → update_sums old new (join (old + s) (nw + w)) (4 * suc k) ≡ join (s + new) (w + s + new)
unfolding update_sums
update_sums-join old new s w nw k e =
    let p : (4 * suc k) / 4 * old ≡ nw = ap (λ n. n * old) (omega arith) ∙ sym e in
    rw p (omega arith)

-- The update on word values.
update_sums-checksum :
    (old new : ℕ) (ws : List ℕ)
    → update_sums old new (checksum (old ∷ ws)) (4 * suc (length ws)) ≡ checksum (ws ++ (new ∷ []))
unfolding checksum
update_sums-checksum old new ws =
    update_sums-join old new (sum ws) (weighted_sum ws) (suc (length ws) * old) (length ws) refl
    ∙ ap₂ join (sym (sum-append ws new)) (sym (weighted_sum-append ws new))

abbrev four : ℕ → ℕ → ℕ → ℕ → List ℕ
four a b c d = a ∷ b ∷ c ∷ d ∷ []

-- Where a plain `char` is signed, updating the checksum of a block of `4 * (k + 1)` bytes by the word
-- that leaves it in front and the word that follows it gives the checksum that `WCsum_get` computes of
-- the block one word further on, and neither reads outside of its block.
pub wc_sum_update-wc_sum_get :
    (k a b c d e f g h : ℕ) (rest : List ℕ)
    → length rest ≡ 4 * k
    → 4 * suc k < 2 ^ 16
    → (sum next : ℕ) × (wc_sum_get schar (a ∷ b ∷ c ∷ d ∷ rest) (4 * suc k) ≡ ok sum)
      × (wc_sum_update (a ∷ b ∷ c ∷ d ∷ []) (e ∷ f ∷ g ∷ h ∷ []) sum (4 * suc k) ≡ ok next)
      × (wc_sum_get schar (rest ++ (e ∷ f ∷ g ∷ h ∷ [])) (4 * suc k) ≡ ok next)
unfolding wc_sum_update signed_word
wc_sum_update-wc_sum_get k a b c d e f g h rest m small =
    let old : ℕ = char4_to_int32 schar a b c d in
    let new : ℕ = char4_to_int32 schar e f g h in
    let ws : List ℕ = words schar rest in
    (
      checksum (old ∷ ws),
      checksum (ws ++ (new ∷ [])),
      first,
      ap ok (
          ap (λ n. update_sums old new (checksum (old ∷ ws)) (4 * suc n))
            (sym (length-words schar k rest m))
          ∙ update_sums-checksum old new ws),
      wc_sum_get-checksum schar (suc k) (rest ++ four e f g h)
            (omega (arith, length-append rest (four e f g h), m)) small
          ∙ ap (λ l. ok (checksum l))
              (words-append k rest (four e f g h) m ∙ ap (λ l. ws ++ l) last),
    )
  where
    first :
        wc_sum_get schar (a ∷ b ∷ c ∷ d ∷ rest) (4 * suc k)
        ≡ ok (checksum (char4_to_int32 schar a b c d ∷ words schar rest))
    first =
        wc_sum_get-checksum schar (suc k) (a ∷ b ∷ c ∷ d ∷ rest) (omega arith) small
        ∙ ap (λ l. ok (checksum l)) (unfold words in refl)

    last : words schar (four e f g h) ≡ char4_to_int32 schar e f g h ∷ []
    last = unfold words in refl
