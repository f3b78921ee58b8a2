-- ===== src/Covering.antt =====
-- version-1/covering.c: which blocks of a file the remote store has already, and new blocks for the
-- rest of the file.
--
-- A file is the list of its bytes, read without errors. `g_ptr_array_sort` is glib's and a parameter, and
-- so is SHA-1. Offsets and lengths wrap as `guint32` and `guint16`.
pub mod Cover
pub mod Complete
pub mod NewFile
pub mod Update
use Prim.Native.Nat.{compare, Ordering, max, min}
use cryptar.Prelude.{
  ℕ, zero, suc, ◌+◌, ◌-◌, ◌%◌, ◌^◌, Bool, true, false, ◌&&◌, Option, none, some, List, [], ◌∷◌,
  ◌++◌, ltb, leb, ◌==◌, if◌then◌else◌, length, take, drop, same_bytes, Result, ok, fault,
  out_of_fuel, and_then, pure, ◌>>=◌, word, sub32,
}
use cryptar.Block
use cryptar.Block.{DbBlock}
use cryptar.Hash
use cryptar.Hash.{Hash}

unfoldable pub block_compare_by_offset : DbBlock → DbBlock → Ordering
block_compare_by_offset b1 b2 = compare b1.offset b2.offset

-- A block of the new cover that `cover_complete_cover` makes.
abbrev pub cover_block : ℕ → ℕ → DbBlock
cover_block offset n = record Block.new {
  offset = offset;
  block_length = n % 2 ^ 16;
  in_new_cover = true;
}

-- `while(so_far < block->offset)`: the blocks that are added, and `so_far` after them.
unfoldable pub fill_gap : (fuel block_length offset so_far : ℕ) → Result (List DbBlock × ℕ)
fill_gap zero block_length offset so_far =
    if ltb so_far offset then fault out_of_fuel else ok ([], so_far)
fill_gap (suc fuel) block_length offset so_far =
    let rest = fill_gap fuel block_length offset ((so_far + block_length) % word) in
    if ltb so_far offset
    then (and_then rest λ (added, end). ok (cover_block so_far block_length ∷ added, end))
    else ok ([], so_far)

-- Where the scan stands after a block that it has reached.
abbrev pub pass_block : DbBlock → ℕ → ℕ
pass_block block so_far =
    if leb block.offset so_far && block.in_new_cover
    then max so_far ((block.offset + block.block_length) % word)
    else so_far

-- The `for` loop over the sorted blocks.
unfoldable pub scan_blocks : (block_length : ℕ) → List DbBlock → ℕ → Result (List DbBlock × ℕ)
scan_blocks block_length [] so_far = ok ([], so_far)
scan_blocks block_length (block ∷ blocks) so_far =
    and_then (fill_gap block.offset block_length block.offset so_far) λ (added, reached).
      and_then (scan_blocks block_length blocks (pass_block block reached))
        λ (more, end). ok (added ++ more, end)

-- The block that the last loop adds at `so_far`: a short one at the end of a file of more than one
-- block starts earlier.
unfoldable pub tail_block : (block_length file_length so_far : ℕ) → DbBlock
tail_block block_length file_length so_far =
    let n = min block_length (sub32 file_length so_far) % 2 ^ 16 in
    cover_block
      (if ltb n block_length && ltb block_length file_length
        then sub32 so_far (block_length - n)
        else so_far)
      n

-- `while(so_far < dbs->file_length)`
unfoldable pub fill_tail : (fuel block_length file_length so_far : ℕ) → Result (List DbBlock)
fill_tail zero block_length file_length so_far =
    if ltb so_far file_length then fault out_of_fuel else ok []
fill_tail (suc fuel) block_length file_length so_far =
    let dbb = tail_block block_length file_length so_far in
    let rest = fill_tail fuel block_length file_length ((so_far + dbb.block_length) % word) in
    if ltb so_far file_length then (and_then rest λ added. ok (dbb ∷ added)) else ok []

-- `cover_complete_cover` after the sort: the array that it leaves.
unfoldable pub complete_sorted :
    (block_length file_length : ℕ) → List DbBlock → Result (List DbBlock)
complete_sorted block_length file_length covering =
    and_then (scan_blocks block_length covering 0) λ (added, so_far).
      and_then (fill_tail file_length block_length file_length so_far)
        λ more. ok (covering ++ (added ++ more))

module _ (sort : (DbBlock → DbBlock → Ordering) → List DbBlock → List DbBlock) where
  unfoldable pub complete_cover :
      (block_length file_length : ℕ) → List DbBlock → Result (List DbBlock)
  complete_cover block_length file_length covering =
      complete_sorted block_length file_length (sort block_compare_by_offset covering)

module _ (sha1 : List ℕ → List ℕ) where
  -- `SCsum_match` of checksum.c
  unfoldable pub sc_sum_match : List ℕ → ℕ → DbBlock → Bool
  sc_sum_match file offset block =
      let bytes = take block.block_length (drop offset file) in
      if length bytes == block.block_length
      then same_bytes (sha1 bytes) block.strong_checksum
      else false

  -- What `cover_hash` does to a block, with what `hash_find` gave for it.
  unfoldable pub match_block : List ℕ → DbBlock → Option ℕ → DbBlock
  match_block file block none = block
  match_block file block (some offset) =
      let moved = record block { in_new_cover = true; offset = offset; local_id = 0 } in
      let kept = record block { in_new_cover = true } in
      if sc_sum_match file offset block
      then if block.offset == offset then kept else moved
      else block

  unfoldable pub cover_hash : List ℕ → List DbBlock → Hash (List DbBlock)
  cover_hash file [] = pure []
  cover_hash file (block ∷ blocks) = do
    found ← Hash.find block.weak_checksum
    rest ← cover_hash file blocks
    pure (match_block file block found ∷ rest)
