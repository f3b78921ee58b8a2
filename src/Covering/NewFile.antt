-- ===== src/Covering/NewFile.antt =====
-- `cover_complete_cover` of version-1/covering.c on a file without old blocks.
use Prim.Native.Nat.{min}
use native.Mathlib.Nat.{mod-eq-sub-mod, mod-eq_of_lt, mod-le}
use native.Mathlib.Decide.{dec_lt, dec_le}
use cryptar.Prelude.{
  ℕ, zero, suc, ◌+◌, ◌-◌, ◌%◌, ◌^◌, ◌≤◌, ◌<◌, ◌≡◌, refl, sym, ap, ◌∙◌, List, [], ◌∷◌, ◌⊎◌, inl, inr,
  le→not_ltb, ok, arith,
}
use cryptar.Block.{DbBlock}
use cryptar.Covering.{scan_blocks, tail_block, fill_tail, complete_sorted}
use cryptar.Covering.Cover.{Covers, Covered}
use cryptar.Covering.Complete.{tail_block-eq, fill_tail-step}

-- The byte at `x` lies in the part of the file behind its last short block.
abbrev pub Behind : (block_length file_length rest x : ℕ) → Type 0
Behind block_length file_length rest x =
    (file_length ≤ x + rest) × (file_length + rest ≤ x + block_length)

module _ (block_length file_length x : ℕ) (pos : 0 < block_length)
    (long : block_length < file_length) (short : block_length < 2 ^ 16)
    (small : file_length + block_length < 2 ^ 32) where
  tail_block-misses :
      (so_far k : ℕ)
      → so_far < file_length
      → min block_length (file_length - so_far) ≡ k
      → (so_far + k ≤ x)
        ⊎ ((k ≡ file_length - so_far) × (file_length + k ≤ x + block_length) × (k < block_length))
      → ¬ (Covers (tail_block block_length file_length so_far) x)
  tail_block-misses so_far k h e c =
      rw
        (tail_block-eq block_length (file_length + block_length) pos short small file_length so_far
          k h (omega arith) e)
        (ground arith)

  fill_tail-done :
      (fuel so_far : ℕ)
      → file_length ≤ so_far
      → fill_tail fuel block_length file_length so_far ≡ ok []
  unfolding fill_tail
  fill_tail-done zero so_far h = rw (le→not_ltb so_far file_length h)
  fill_tail-done (suc fuel) so_far h = rw (le→not_ltb so_far file_length h)

  step :
      (fuel so_far k : ℕ) (r : List DbBlock)
      → so_far < file_length
      → min block_length (file_length - so_far) ≡ k
      → fill_tail fuel block_length file_length (so_far + k) ≡ ok r
      → fill_tail (suc fuel) block_length file_length so_far
        ≡ ok (tail_block block_length file_length so_far ∷ r)
  step fuel so_far k r h e run =
      fill_tail-step block_length (file_length + block_length) pos short small fuel file_length
        so_far k r h (omega arith) e run

  fill_tail-misses :
      (fuel so_far rest : ℕ)
      → file_length ≤ so_far + fuel
      → (file_length - so_far) % block_length ≡ rest
      → Behind block_length file_length rest x
      → (r : List DbBlock) × (fill_tail fuel block_length file_length so_far ≡ ok r)
        × (¬ (Covered x r))
  fill_tail-misses zero so_far rest enough e b =
      ([], fill_tail-done zero so_far (omega arith), λ c. c)
  fill_tail-misses (suc fuel) so_far rest enough e b = elim (dec_lt so_far file_length) [
    | no h ↦ ([], fill_tail-done (suc fuel) so_far (omega arith), λ c. c)
    | yes h ↦ elim (dec_le block_length (file_length - so_far)) [
      | yes whole ↦
          (let less : rest ≤ file_length - so_far - block_length =
              rw (sym e, mod-eq-sub-mod whole)
                (mod-le (file_length - so_far - block_length) block_length) in
            let e' : (file_length - (so_far + block_length)) % block_length ≡ rest =
              ap (λ n. n % block_length) (omega arith) ∙ sym (mod-eq-sub-mod whole) ∙ e in
            let (r, run, misses) =
              fill_tail-misses fuel (so_far + block_length) rest (omega arith) e' b in
            (
              tail_block block_length file_length so_far ∷ r,
              step fuel so_far block_length r h (omega arith) run,
              λ c. elim c [
                | inl here ↦
                    tail_block-misses so_far block_length h (omega arith) (inl (omega arith)) here
                | inr later ↦ misses later
              ],
            ))
      | no part ↦
          (let k : file_length - so_far ≡ rest =
              sym (mod-eq_of_lt {n = file_length - so_far} {m = block_length} (omega arith)) ∙ e in
            (
              tail_block block_length file_length so_far ∷ [],
              step fuel so_far (file_length - so_far) [] h (omega arith)
                  (fill_tail-done fuel (so_far + (file_length - so_far)) (omega arith)),
              λ c. elim c [
                | inl here ↦
                    tail_block-misses so_far (file_length - so_far) h (omega arith)
                      (inr (refl, omega arith, omega arith)) here
                | inr later ↦ later
              ],
            ))
    ]
  ]

-- For a file that is longer than one block, that had no old blocks and whose offsets do not wrap,
-- the covering is completed, and no block of it holds a byte that lies both in the last `file_length
-- % block_length` bytes and behind the short block that was moved back to start one block length
-- before the end.
pub complete_sorted-misses :
    (block_length file_length x : ℕ)
    → 0 < block_length
    → block_length < file_length
    → block_length < 2 ^ 16
    → file_length + block_length < 2 ^ 32
    → Behind block_length file_length (file_length % block_length) x
    → (r : List DbBlock) × (complete_sorted block_length file_length [] ≡ ok r) × (¬ (Covered x r))
unfolding complete_sorted scan_blocks
complete_sorted-misses block_length file_length x pos long short small b =
    let (r, run, misses) =
      fill_tail-misses block_length file_length x pos long short small file_length 0
        (file_length % block_length) (omega arith) (ap (λ n. n % block_length) (omega arith)) b in
    (r, rw run, misses)
