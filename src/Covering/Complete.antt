-- ===== src/Covering/Complete.antt =====
-- The loops of `cover_complete_cover`, version-1/covering.c.
use Prim.Native.Nat.{min}
use cryptar.Prelude.{
  ℕ, zero, suc, ◌+◌, ◌-◌, ◌%◌, ◌^◌, ◌≤◌, ◌<◌, ◌≡◌, refl, ap, ◌∙◌, ◌&&◌, List, [], ◌∷◌, ◌++◌, ◌⊎◌,
  inl, inr, ltb, if◌then◌else◌, lt→ltb, le→not_ltb, ok, word, sub32, arith,
}
use cryptar.Block.{DbBlock}
use cryptar.Covering.{
  cover_block, fill_gap, pass_block, scan_blocks, tail_block, fill_tail, complete_sorted,
}
use cryptar.Covering.Cover.{Covers, Covered, Covered-append_left, Covered-append_right, Within}
use native.Mathlib.Decide.{dec_lt}

module _ (block_length limit : ℕ) (pos : 0 < block_length) (short : block_length < 2 ^ 16)
    (small : limit < 2 ^ 32) where
  record GapFilled (offset so_far : ℕ) (r : List DbBlock × ℕ) : Type 0 where
    reached : offset ≤ r.1
    grown : so_far ≤ r.1
    bounded : r.1 ≤ limit
    covered : (x : ℕ) → so_far ≤ x → x < r.1 → Covered x r.0

  fill_gap-step :
      (fuel offset so_far : ℕ) (r : List DbBlock × ℕ)
      → so_far < offset
      → offset + block_length ≤ limit
      → fill_gap fuel block_length offset (so_far + block_length) ≡ ok r
      → fill_gap (suc fuel) block_length offset so_far
        ≡ ok (cover_block so_far block_length ∷ r.0, r.1)
  unfolding fill_gap
  fill_gap-step fuel offset so_far r h high run =
      let next : (so_far + block_length) % word ≡ so_far + block_length = omega arith in
      rw (lt→ltb so_far offset h, next, run)

  fill_gap-GapFilled :
      (fuel offset so_far : ℕ)
      → offset ≤ so_far + fuel
      → so_far ≤ limit
      → offset + block_length ≤ limit
      → (r : List DbBlock × ℕ) × (fill_gap fuel block_length offset so_far ≡ ok r)
        × GapFilled offset so_far r
  unfolding fill_gap
  fill_gap-GapFilled zero offset so_far enough low high = (
    ([], so_far),
    rw (le→not_ltb so_far offset (omega arith)),
    record {
      reached = omega arith;
      grown = omega arith;
      bounded = low;
      covered = λ x a b. absurd (omega arith);
    },
  )
  fill_gap-GapFilled (suc fuel) offset so_far enough low high = elim (dec_lt so_far offset) [
    | no h ↦ (
      ([], so_far),
      rw (le→not_ltb so_far offset (omega arith)),
      record {
        reached = omega arith;
        grown = omega arith;
        bounded = low;
        covered = λ x a b. absurd (omega arith);
      },
    )
    | yes h ↦
        (let (r, run, f) =
            fill_gap-GapFilled fuel offset (so_far + block_length) (omega arith) (omega arith)
              high in
          (
            (cover_block so_far block_length ∷ r.0, r.1),
            fill_gap-step fuel offset so_far r h high run,
            record {
              reached = f.reached;
              grown = omega (arith, f.grown);
              bounded = f.bounded;
              covered = λ x a b. elim (dec_lt x (so_far + block_length)) [
                | yes c ↦ inl (refl, a, omega arith)
                | no c ↦ inr (f.covered x (omega arith) b)
              ];
            },
          ))
  ]

  record Scanned (blocks : List DbBlock) (so_far : ℕ) (r : List DbBlock × ℕ) : Type 0 where
    grown : so_far ≤ r.1
    bounded : r.1 ≤ limit
    covered : (x : ℕ) → so_far ≤ x → x < r.1 → Covered x blocks ⊎ Covered x r.0

  -- What passing a block adds to the covered part.
  pass_block-Covers :
      (b : DbBlock) (so_far : ℕ)
      → b.offset ≤ so_far
      → b.offset + b.block_length ≤ limit
      → so_far ≤ limit
      → (so_far ≤ pass_block b so_far)
        × (pass_block b so_far ≤ limit)
        × ((x : ℕ) → so_far ≤ x → x < pass_block b so_far → Covers b x)
  pass_block-Covers b so_far at low high = (ground arith, ground arith, λ x a c. ground arith)

  scan_blocks-Scanned :
      (blocks : List DbBlock) (so_far : ℕ)
      → so_far ≤ limit
      → Within block_length limit blocks
      → (r : List DbBlock × ℕ) × (scan_blocks block_length blocks so_far ≡ ok r)
        × Scanned blocks so_far r
  unfolding scan_blocks
  scan_blocks-Scanned [] so_far low w = (
    ([], so_far),
    refl,
    record { grown = omega arith; bounded = low; covered = λ x a b. absurd (omega arith) },
  )
  scan_blocks-Scanned (b ∷ bs) so_far low w =
      let (g, run_g, f) = fill_gap-GapFilled b.offset b.offset so_far (omega arith) low w.0 in
      let (up, top, inside) = pass_block-Covers b g.1 f.reached w.1 f.bounded in
      let (r, run_r, s) = scan_blocks-Scanned bs (pass_block b g.1) top w.2 in
      (
        (g.0 ++ r.0, r.1),
        rw (run_g, run_r),
        record {
          grown = omega (arith, f.grown, up, s.grown);
          bounded = s.bounded;
          covered = λ x a c. elim (dec_lt x g.1) [
            | yes h ↦ inr (Covered-append_left x g.0 r.0 (f.covered x a h))
            | no h ↦ elim (dec_lt x (pass_block b g.1)) [
              | yes h' ↦ inl (inl (inside x (omega arith) h'))
              | no h' ↦ elim (s.covered x (omega arith) c) [
                | inl old ↦ inl (inr old)
                | inr added ↦ inr (Covered-append_right x g.0 r.0 added)
              ]
            ]
          ];
        },
      )

  -- The loop at the end of the file.
  record TailFilled (file_length so_far : ℕ) (r : List DbBlock) : Type 0 where
    covered :
        (x : ℕ)
        → so_far ≤ x
        → x < file_length
        → (file_length ≤ block_length) ⊎ (x + block_length ≤ file_length)
        → Covered x r

  pub tail_block-eq :
      (file_length so_far k : ℕ)
      → so_far < file_length
      → file_length + block_length ≤ limit
      → min block_length (file_length - so_far) ≡ k
      → tail_block block_length file_length so_far
        ≡ cover_block
            (if ltb k block_length && ltb block_length file_length
              then so_far + k - block_length
              else so_far)
            k
  unfolding tail_block
  tail_block-eq file_length so_far k h high e =
      let n : min block_length (sub32 file_length so_far) % 2 ^ 16 ≡ k = omega arith in
      rw n (ground arith)

  pub fill_tail-step :
      (fuel file_length so_far k : ℕ) (r : List DbBlock)
      → so_far < file_length
      → file_length + block_length ≤ limit
      → min block_length (file_length - so_far) ≡ k
      → fill_tail fuel block_length file_length (so_far + k) ≡ ok r
      → fill_tail (suc fuel) block_length file_length so_far
        ≡ ok (tail_block block_length file_length so_far ∷ r)
  unfolding fill_tail
  fill_tail-step fuel file_length so_far k r h high e run =
      let size : (so_far + (tail_block block_length file_length so_far).block_length) % word
          ≡ so_far + k =
        ap (λ b. (so_far + b.block_length) % word) (tail_block-eq file_length so_far k h high e)
        ∙ omega arith in
      rw (lt→ltb so_far file_length h, size, run)

  -- Where a block at `so_far` is whole, or the file is no longer than one, the tail block holds it.
  tail_block-Covers :
      (file_length so_far k x : ℕ)
      → so_far < file_length
      → file_length + block_length ≤ limit
      → min block_length (file_length - so_far) ≡ k
      → so_far ≤ x
      → x < so_far + k
      → (file_length ≤ block_length) ⊎ (x + block_length ≤ file_length)
      → Covers (tail_block block_length file_length so_far) x
  tail_block-Covers file_length so_far k x h high e a b c =
      rw (tail_block-eq file_length so_far k h high e) (ground arith)

  fill_tail-TailFilled :
      (fuel file_length so_far : ℕ)
      → file_length ≤ so_far + fuel
      → file_length + block_length ≤ limit
      → (r : List DbBlock) × (fill_tail fuel block_length file_length so_far ≡ ok r)
        × TailFilled file_length so_far r
  unfolding fill_tail
  fill_tail-TailFilled zero file_length so_far enough high = (
    [],
    rw (le→not_ltb so_far file_length (omega arith)),
    record { covered = λ x a b c. absurd (omega arith) },
  )
  fill_tail-TailFilled (suc fuel) file_length so_far enough high =
      elim (dec_lt so_far file_length) [
        | no h ↦ (
          [],
          rw (le→not_ltb so_far file_length (omega arith)),
          record { covered = λ x a b c. absurd (omega arith) },
        )
        | yes h ↦
            (let k : ℕ = min block_length (file_length - so_far) in
              let (r, run, t) =
                fill_tail-TailFilled fuel file_length (so_far + k) (omega arith) high in
              (
                tail_block block_length file_length so_far ∷ r,
                fill_tail-step fuel file_length so_far k r h high refl run,
                record {
                  covered = λ x a b c. elim (dec_lt x (so_far + k)) [
                    | yes d ↦ inl (tail_block-Covers file_length so_far k x h high refl a d c)
                    | no d ↦ inr (t.covered x (omega arith) b c)
                  ];
                },
              ))
      ]

  -- What the loops leave, in the old blocks or in those that they add.
  pub complete_sorted-covers :
      (file_length : ℕ) (blocks : List DbBlock)
      → file_length + block_length ≤ limit
      → Within block_length limit blocks
      → (r : List DbBlock) × (complete_sorted block_length file_length blocks ≡ ok r)
        × ((x : ℕ)
            → x < file_length
            → (file_length ≤ block_length) ⊎ (x + block_length ≤ file_length)
            → Covered x r)
  unfolding complete_sorted
  complete_sorted-covers file_length blocks high w =
      let (s, run_s, p) = scan_blocks-Scanned blocks 0 (omega arith) w in
      let (t, run_t, q) = fill_tail-TailFilled file_length file_length s.1 (omega arith) high in
      (
        blocks ++ (s.0 ++ t),
        rw (run_s, run_t),
        λ x a c. elim (dec_lt x s.1) [
          | yes d ↦ elim (p.covered x (omega arith) d) [
            | inl old ↦ Covered-append_left x blocks (s.0 ++ t) old
            | inr added ↦
                Covered-append_right x blocks (s.0 ++ t) (Covered-append_left x s.0 t added)
          ]
          | no d ↦
              Covered-append_right x blocks (s.0 ++ t)
                (Covered-append_right x s.0 t (q.covered x (omega arith) a c))
        ],
      )

-- For any array of old blocks in any order, with a block length that fits a `guint16` and offsets that do
-- not wrap, the covering is completed, and a byte of the file is inside of a block of the new cover if
-- the file is no longer than one block or the byte is at least a block length from the end.
pub complete_sorted-Covered :
    (block_length file_length limit : ℕ) (blocks : List DbBlock) (x : ℕ)
    → 0 < block_length
    → block_length < 2 ^ 16
    → limit < 2 ^ 32
    → file_length + block_length ≤ limit
    → Within block_length limit blocks
    → x < file_length
    → (file_length ≤ block_length) ⊎ (x + block_length ≤ file_length)
    → (r : List DbBlock) × (complete_sorted block_length file_length blocks ≡ ok r) × Covered x r
complete_sorted-Covered block_length file_length limit blocks x pos short small high w inside c =
    let (r, run, covered) =
      complete_sorted-covers block_length limit pos short small file_length blocks high w in
    (r, run, covered x inside c)
