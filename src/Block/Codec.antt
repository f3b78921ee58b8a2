-- ===== src/Block/Codec.antt =====
-- The byte form of blocks, version-1/block.c: writing against reading.
use cryptar.Prelude.{
  ℕ, ◌+◌, ◌%◌, ◌^◌, ◌≤◌, ◌<◌, ◌≡◌, ◌∙◌, ap, List, [], ◌∷◌, ◌++◌, length, arith, be16, be32, ok,
}
use cryptar.Ios.{IosBuf}
use cryptar.Ios.Valid.{IsValid, contents, advance}
use cryptar.Ios.Codec.{Emits, Parses, append-Emits, >>-Emits, >>=-Parses, last-Parses, round_trip}
use cryptar.Ios.Fields.{
  append_int8-Emits, append_int16-Emits, append_int32-Emits, byte-Parses, word16-Parses,
  word32-Parses, bytes-Parses,
}
use cryptar.Block.{DbBlock, new, to_stream_no_data, from_stream_no_data}

-- The fields fit the C types of the structure.
pub record IsWellTyped (b : DbBlock) : Type 0 where
  pub version : b.version < 2 ^ 8
  pub remote_id : b.remote_id < 2 ^ 32
  pub offset : b.offset < 2 ^ 32
  pub block_length : b.block_length < 2 ^ 16
  pub weak_checksum : b.weak_checksum < 2 ^ 32
  pub strong_checksum : length b.strong_checksum ≡ 20

-- What the byte form keeps of a block.
abbrev pub stored : ℕ → DbBlock → DbBlock
stored id b = record new {
  local_id = id;
  version = b.version;
  remote_id = b.remote_id;
  offset = b.offset;
  block_length = b.block_length;
  weak_checksum = b.weak_checksum;
  strong_checksum = b.strong_checksum;
}

abbrev pub block_bytes : DbBlock → List ℕ
block_bytes b =
    (b.version % 256 ∷ [])
    ++ (be32 b.remote_id
        ++ (be32 b.offset ++ (be16 b.block_length ++ (be32 b.weak_checksum ++ b.strong_checksum))))

pub to_stream_no_data-Emits : (b : DbBlock) → Emits (to_stream_no_data b) (block_bytes b)
unfolding to_stream_no_data
to_stream_no_data-Emits b = >>-Emits (append_int8-Emits b.version) (
    >>-Emits (append_int32-Emits b.remote_id) (
      >>-Emits (append_int32-Emits b.offset) (
        >>-Emits (append_int16-Emits b.block_length)
          (>>-Emits (append_int32-Emits b.weak_checksum) (append-Emits b.strong_checksum)))))

pub from_stream_no_data-Parses :
    (id : ℕ) (b : DbBlock)
    → IsWellTyped b
    → Parses (from_stream_no_data id) (block_bytes b) (stored id b)
unfolding from_stream_no_data
from_stream_no_data-Parses id b w = >>=-Parses _ (byte-Parses b.version w.version) (
    >>=-Parses _ (word32-Parses b.remote_id w.remote_id) (
      >>=-Parses _ (word32-Parses b.offset w.offset) (
        >>=-Parses _ (word16-Parses b.block_length w.block_length) (
          >>=-Parses _ (word32-Parses b.weak_checksum w.weak_checksum) (
            last-Parses (λ sum. record (stored id b) { strong_checksum = sum })
              (bytes-Parses 20 b.strong_checksum w.strong_checksum))))))

-- A block whose fields fit their C types, written without its data to a buffer with nothing unread,
-- is read back under the given id with every stored field unchanged and its data and flags cleared.
pub block_from_stream-to_stream :
    (id : ℕ) (b : DbBlock) {ios : IosBuf}
    → IsWellTyped b
    → IsValid ios
    → contents ios ≡ []
    → ios.len + 35 ≤ 2 ^ 30
    → (r : IosBuf) × (to_stream_no_data b ios ≡ ok (tt, r))
      × (from_stream_no_data id r ≡ ok (stored id b, advance 35 r))
block_from_stream-to_stream id b {ios} w v empty fits =
    let (r, e, f) =
      round_trip (to_stream_no_data-Emits b) (from_stream_no_data-Parses id b w) v empty
        (omega (arith, w.strong_checksum)) in
    (
      r,
      e,
      f
          ∙ ap (λ n. ok (stored id b, record r { read_ptr = r.read_ptr + n }))
              (omega (arith, w.strong_checksum)),
    )
