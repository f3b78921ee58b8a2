-- ===== src/Tests/Stores.antt =====
-- The databases at concrete inputs.
use cryptar.Prelude.{
  ℕ, ◌≡◌, refl, false, some, List, [], ◌∷◌, ok, fault, out_of_bounds, be32, arith, inl,
}
use cryptar.Database.{Handles}
use cryptar.Block.Store as Blocks
use cryptar.Block.Store.Mismatch.{local_bytes, block_fetch-add}
use cryptar.Filename.Codec.{file_bytes}
use cryptar.Filename.Store as Files
use cryptar.Filename.Store.RoundTrip.{new_file, file_fetch-add}
use cryptar.Tests.{memory, nothing, all_open, put_in, Table, block_at}

abbrev counted : ℕ → Table → Table
counted n t = put_in t (be32 0) (be32 n)

abbrev name : List ℕ
name = 97 ∷ 98 ∷ []

block_fetch-add_example :
    (h' : Handles memory) × (Blocks.add memory (block_at 8) all_open ≡ ok (tt, h'))
    × (Blocks.fetch memory 3 h' ≡ fault out_of_bounds)
block_fetch-add_example =
    block_fetch-add memory (block_at 8) all_open nothing
      (put_in nothing (be32 3) (local_bytes (block_at 8))) (omega arith) (omega arith) refl refl

file_fetch-add_example :
    (h' : Handles memory) × (Files.add memory false name all_open ≡ ok (new_file name 1, h'))
    × (Files.fetch memory name h' ≡ ok (some (new_file name 1), h'))
file_fetch-add_example =
    file_fetch-add memory false name 0 all_open nothing (counted 1 nothing) nothing
      (put_in nothing name (file_bytes (new_file name 1))) (omega arith) (omega arith) refl
      (inl (refl, refl)) refl refl refl
