-- ===== src/Block.antt =====
-- version-1/block.h and version-1/block.c: the blocks that files are cut into, and their byte form.
--
-- A `DBBlock` outside of the database is a value here; its address matters nowhere in block.c.
pub mod Codec
pub mod Store
use cryptar.Prelude.{
  ℕ, ◌%◌, ◌≡◌, Bool, false, Option, none, some, List, [], ◌∷◌, length, arith, Result, ok, fault,
  assertion_failed, pure, ◌>>=◌, ◌>>◌,
}
use cryptar.Ios.{
  IosBuf, Stream, buffer, append, append_int8, append_int16, append_int32, read_byte, read_bytes,
  read_int16, read_int32, read, copy_from,
}

pub record DbBlock : Type 0 where
  pub local_id : ℕ
  pub version : ℕ
  pub offset : ℕ
  pub block_length : ℕ
  pub weak_checksum : ℕ
  pub strong_checksum : List ℕ
  pub remote_id : ℕ
  pub payload : Option (List ℕ)
  pub block_queued : Bool
  pub block_acked : Bool
  pub in_new_cover : Bool

abbrev pub sc_sum_length : ℕ
sc_sum_length = 20

abbrev pub zero_checksum : List ℕ
zero_checksum = 0 ∷ 0 ∷ 0 ∷ 0 ∷ 0 ∷ 0 ∷ 0 ∷ 0 ∷ 0 ∷ 0 ∷ 0 ∷ 0 ∷ 0 ∷ 0 ∷ 0 ∷ 0 ∷ 0 ∷ 0 ∷ 0 ∷ 0 ∷ []

-- `g_new0`
abbrev pub new : DbBlock
new = record {
  local_id = 0;
  version = 0;
  offset = 0;
  block_length = 0;
  weak_checksum = 0;
  strong_checksum = zero_checksum;
  remote_id = 0;
  payload = none;
  block_queued = false;
  block_acked = false;
  in_new_cover = false;
}

-- `dbb->strong_checksum` is an array of 20 bytes.
unfoldable pub to_stream_no_data : DbBlock → Stream (Unit {0})
to_stream_no_data dbb = do
  append_int8 dbb.version
  append_int32 dbb.remote_id
  append_int32 dbb.offset
  append_int16 dbb.block_length
  append_int32 dbb.weak_checksum
  append dbb.strong_checksum

-- `ios_append(ios, dbb->data, dbb->length)`
append_payload : DbBlock → Stream (Unit {0})
append_payload dbb = elim dbb.payload [
  | none ↦ λ _. fault assertion_failed
  | some bytes ↦ do sent ← copy_from dbb.block_length (some bytes); append sent
]

unfoldable pub to_stream : DbBlock → Stream (Unit {0})
unfolding append_payload
to_stream dbb = do to_stream_no_data dbb; append_payload dbb

unfoldable pub from_stream_no_data : ℕ → Stream DbBlock
from_stream_no_data id = do
  version ← read_byte
  remote_id ← read_int32
  offset ← read_int32
  block_length ← read_int16
  weak_checksum ← read_int32
  strong_checksum ← read_bytes 20
  pure (record new {
    local_id = id;
    version = version;
    remote_id = remote_id;
    offset = offset;
    block_length = block_length;
    weak_checksum = weak_checksum;
    strong_checksum = strong_checksum;
  })

-- The block that follows in the stream, with its data.
unfoldable pub read_block : ℕ → Stream (Option DbBlock)
read_block id = do
  dbb ← from_stream_no_data id
  bytes ← read_bytes dbb.block_length
  pure (some (record dbb { payload = some bytes }))

-- `none` is NULL: nothing is stored under the key.
unfoldable pub from_stream : ℕ → Stream (Option DbBlock)
unfolding read_block
from_stream id ios = elim (buffer ios) [ none ↦ ok (none, ios) | some _ ↦ read_block id ios ]
