-- ===== src/Tests/Covers.antt =====
-- Coverings of small files.
use cryptar.Prelude.{◌≡◌, List, [], ◌∷◌, ok, arith, inr, true}
use cryptar.Block.{DbBlock}
use cryptar.Covering.{complete_sorted}
use cryptar.Covering.Cover.{Covered}
use cryptar.Covering.Complete.{complete_sorted-Covered}
use cryptar.Covering.NewFile.{complete_sorted-misses}
use cryptar.Tests.{block_at}

-- An old block in the middle of the file that is in the new cover.
abbrev old_blocks : List DbBlock
old_blocks = record (block_at 8) { in_new_cover = true } ∷ []

-- The byte before it is covered by a new block.
complete_sorted-Covered_example :
    (r : List DbBlock) × (complete_sorted 4 14 old_blocks ≡ ok r) × Covered 7 r
complete_sorted-Covered_example =
    complete_sorted-Covered 4 14 100 old_blocks 7 (omega arith) (omega arith) (omega arith)
      (omega arith) (omega arith) (omega arith) (inr (omega arith))

complete_sorted-misses_example :
    (r : List DbBlock) × (complete_sorted 4 10 [] ≡ ok r) × (¬ (Covered 9 r))
complete_sorted-misses_example =
    complete_sorted-misses 4 10 9 (omega arith) (omega arith) (omega arith) (omega arith)
      (omega arith)
