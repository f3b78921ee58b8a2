-- ===== src/Block/Store.antt =====
-- version-1/block.c: blocks in their database, `db_block_add` and `db_block_fetch`.
pub mod Mismatch
use cryptar.Prelude.{ℕ, Option, Result, lift, ◌>>=◌, ◌>>◌}
use cryptar.Ios
use cryptar.Ios.{Stream}
use cryptar.Database
use cryptar.Database.{blocks, BerkeleyDb, Store}
use cryptar.Block
use cryptar.Block.{DbBlock}

-- The record that `db_block_add` stores.
unfoldable pub local_to_stream : DbBlock → Stream (Unit {0})
local_to_stream b = do
  Ios.append_int8 b.version
  Ios.append_int32 b.offset
  Ios.append_int16 b.block_length

module _ (lib : BerkeleyDb) where
  unfoldable pub add : DbBlock → Store lib (Unit {0})
  add b = do
    key ← lift (Ios.written (Ios.append_int32 b.local_id))
    value ← lift (Ios.written (local_to_stream b))
    Database.db_put lib blocks key value

  -- The buffer is parsed after it was freed; here it still holds what it held.
  unfoldable pub fetch : ℕ → Store lib (Option DbBlock)
  fetch id = do
    key ← lift (Ios.written (Ios.append_int32 id))
    value ← Database.db_get lib blocks key Ios.new
    lift (Ios.parsed (Block.from_stream id) value)
