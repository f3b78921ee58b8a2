-- ===== src/Block/Store/Mismatch.antt =====
-- `db_block_add` against `db_block_fetch` of version-1/block.c.
use cryptar.Prelude.{
  ℕ, ◌%◌, ◌^◌, ◌<◌, ◌≡◌, refl, some, List, [], ◌∷◌, ◌++◌, ok, fault, out_of_bounds, arith, ◌/◌,
  be16, be32,
}
use cryptar.Ios.{IosBuf, read_int32}
use cryptar.Ios.Valid.{contents, advance}
use cryptar.Ios.Codec.{Emits, >>-Emits, advance-IsValid, contents-advance}
use cryptar.Ios.Fields.{
  append_int8-Emits, append_int16-Emits, append_int32-Emits, byte-Parses, word32-Parses,
  buffer-some,
}
use cryptar.Ios.Buffers.{Holds, written-Holds}
use cryptar.Database.{blocks, BerkeleyDb, Handles, set_handle}
use cryptar.Database.RoundTrip.{db_put-run, db_get-run, lookup-put, set_handle-same}
use cryptar.Block.{DbBlock, from_stream, from_stream_no_data, read_block}
use cryptar.Block.Store.{local_to_stream, add, fetch}

abbrev pub local_bytes : DbBlock → List ℕ
local_bytes b = (b.version % 256 ∷ []) ++ (be32 b.offset ++ be16 b.block_length)

local_to_stream-Emits : (b : DbBlock) → Emits (local_to_stream b) (local_bytes b)
unfolding local_to_stream
local_to_stream-Emits b =
    >>-Emits (append_int8-Emits b.version)
      (>>-Emits (append_int32-Emits b.offset) (append_int16-Emits b.block_length))

-- Two bytes are too few for an integer.
read_int32-short :
    (ios : IosBuf) (a b : ℕ) → contents ios ≡ a ∷ b ∷ [] → read_int32 ios ≡ fault out_of_bounds
unfolding read_int32
read_int32-short ios a b e = rw e refl

from_stream-short :
    (id : ℕ) (b : DbBlock) (ios : IosBuf)
    → b.version < 2 ^ 8
    → b.offset < 2 ^ 32
    → Holds (local_bytes b) ios
    → from_stream id ios ≡ fault out_of_bounds
unfolding from_stream read_block from_stream_no_data
from_stream-short id b ios hv ho p =
    let rest : List ℕ = be16 b.block_length in
    let first = (byte-Parses b.version hv).run ios (be32 b.offset ++ rest) p.valid p.unread_bytes in
    let after : IosBuf = advance 1 ios in
    let valid =
      advance-IsValid (b.version % 256 ∷ []) (be32 b.offset ++ rest) p.valid p.unread_bytes in
    let left = contents-advance ios (b.version % 256 ∷ []) (be32 b.offset ++ rest) p.unread_bytes in
    let second = (word32-Parses b.offset ho).run after rest valid left in
    rw
      (
        buffer-some (b.version % 256) (be32 b.offset ++ rest) p.valid p.unread_bytes,
        from_stream,
        first,
        second,
        read_int32-short (advance 4 after) (b.block_length / 256 % 256) (b.block_length % 256)
            (contents-advance after (be32 b.offset) rest left),
      )
      refl

module _ (lib : BerkeleyDb) where
  -- If the write succeeds, a block whose version and offset fit their C types is added to the local
  -- database, but a fetch of it does not return: it runs out of the bytes that were stored.
  pub block_fetch-add :
      (b : DbBlock) (h : Handles lib) (db db' : lib.Db)
      → b.version < 2 ^ 8
      → b.offset < 2 ^ 32
      → h blocks ≡ some db
      → lib.store db (be32 b.local_id) (local_bytes b) ≡ some db'
      → (h' : Handles lib) × (add lib b h ≡ ok (tt, h'))
        × (fetch lib b.local_id h' ≡ fault out_of_bounds)
  unfolding add fetch
  block_fetch-add b h db db' hv ho e stored =
      let h' : Handles lib = set_handle lib h blocks (some db') in
      let (k, ek, pk) = written-Holds (append_int32-Emits b.local_id) (omega arith) in
      let (d, ed, pd) = written-Holds (local_to_stream-Emits b) (omega arith) in
      let put_run =
        db_put-run lib blocks (be32 b.local_id) (local_bytes b) k d h db db' pk pd e stored in
      let (r, er, pr) =
        db_get-run lib blocks (be32 b.local_id) (local_bytes b) k h' db' pk (omega arith)
          (set_handle-same lib h blocks (some db'))
          (lookup-put lib db db' (be32 b.local_id) (local_bytes b) stored) in
      (h', rw (ek, ed) put_run, rw (ek, er, from_stream-short b.local_id b r hv ho pr) refl)
