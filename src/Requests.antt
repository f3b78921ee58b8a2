-- ===== src/Requests.antt =====
-- version-1/requests.c: the byte form of the block list of a file.
pub mod Codec
pub mod Sending
use cryptar.Prelude.{ℕ, zero, suc, List, [], ◌∷◌, length, pure, ◌>>=◌, ◌>>◌}
use cryptar.Ios.{Stream, append_int32, read_int32}
use cryptar.Block
use cryptar.Block.{DbBlock}

-- The loop of `block_list_to_stream`.
unfoldable pub blocks_to_stream : List DbBlock → Stream (Unit {0})
blocks_to_stream [] = pure tt
blocks_to_stream (dbb ∷ blocks) = do
  append_int32 dbb.local_id
  Block.to_stream_no_data dbb
  blocks_to_stream blocks

unfoldable pub block_list_to_stream : List DbBlock → Stream (Unit {0})
block_list_to_stream block_list = do append_int32 (length block_list); blocks_to_stream block_list

-- The loop of `block_list_from_stream`, for the blocks still to come.
unfoldable pub blocks_from_stream : ℕ → Stream (List DbBlock)
blocks_from_stream zero = pure []
blocks_from_stream (suc left) = do
  id ← read_int32
  dbb ← Block.from_stream_no_data id
  blocks ← blocks_from_stream left
  pure (dbb ∷ blocks)

unfoldable pub block_list_from_stream : Stream (List DbBlock)
block_list_from_stream = do len ← read_int32; blocks_from_stream len
