-- ===== src/Requests/Codec.antt =====
-- The byte form of block lists, version-1/requests.c: writing against reading.
use cryptar.Prelude.{
  ℕ, ◌+◌, ◌*◌, ◌^◌, ◌≤◌, ◌<◌, ◌≡◌, refl, List, [], ◌∷◌, ◌++◌, length, length-append, arith, be32,
  ok,
}
use cryptar.Ios.{IosBuf}
use cryptar.Ios.Valid.{IsValid, contents, advance}
use cryptar.Ios.Codec.{
  Emits, Parses, >>-Emits, >>=-Parses, last-Parses, round_trip, pure-Emits, pure-Parses,
}
use cryptar.Ios.Fields.{append_int32-Emits, word32-Parses}
use cryptar.Block.{DbBlock}
use cryptar.Block.Codec.{
  IsWellTyped, stored, block_bytes, to_stream_no_data-Emits, from_stream_no_data-Parses,
}
use cryptar.Requests.{
  blocks_to_stream, block_list_to_stream, blocks_from_stream, block_list_from_stream,
}

-- Every block fits its C types.
abbrev pub AllWellTyped : List DbBlock → Type 0
AllWellTyped [] = Unit
AllWellTyped (b ∷ bs) = IsWellTyped b × (b.local_id < 2 ^ 32) × AllWellTyped bs

abbrev pub stored_all : List DbBlock → List DbBlock
stored_all [] = []
stored_all (b ∷ bs) = stored b.local_id b ∷ stored_all bs

abbrev list_bytes : List DbBlock → List ℕ
list_bytes [] = []
list_bytes (b ∷ bs) = be32 b.local_id ++ (block_bytes b ++ list_bytes bs)

blocks_to_stream-Emits : (bs : List DbBlock) → Emits (blocks_to_stream bs) (list_bytes bs)
unfolding blocks_to_stream
blocks_to_stream-Emits [] = pure-Emits
blocks_to_stream-Emits (b ∷ bs) =
    >>-Emits (append_int32-Emits b.local_id)
      (>>-Emits (to_stream_no_data-Emits b) (blocks_to_stream-Emits bs))

blocks_from_stream-Parses :
    (bs : List DbBlock)
    → AllWellTyped bs
    → Parses (blocks_from_stream (length bs)) (list_bytes bs) (stored_all bs)
unfolding blocks_from_stream
blocks_from_stream-Parses [] w = pure-Parses []
blocks_from_stream-Parses (b ∷ bs) w = >>=-Parses _ (word32-Parses b.local_id w.1) (
    >>=-Parses _ (from_stream_no_data-Parses b.local_id b w.0)
      (last-Parses (λ l. stored b.local_id b ∷ l) (blocks_from_stream-Parses bs w.2)))

length-list_bytes : (bs : List DbBlock) → AllWellTyped bs → length (list_bytes bs) ≡ 39 * length bs
length-list_bytes [] w = refl
length-list_bytes (b ∷ bs) w = omega (
  arith,
  length-append (block_bytes b) (list_bytes bs),
  length-list_bytes bs w.2,
  w.0.strong_checksum,
)

-- A list of blocks whose fields fit their C types, written to a buffer with nothing unread, is read
-- back with as many blocks, in order, each with its ids, offset, length and checksums unchanged.
pub block_list_from_stream-block_list_to_stream :
    (bs : List DbBlock) {ios : IosBuf}
    → AllWellTyped bs
    → IsValid ios
    → contents ios ≡ []
    → ios.len + 4 + 39 * length bs ≤ 2 ^ 30
    → (r r' : IosBuf) × (block_list_to_stream bs ios ≡ ok (tt, r))
      × (block_list_from_stream r ≡ ok (stored_all bs, r'))
unfolding block_list_to_stream block_list_from_stream
block_list_from_stream-block_list_to_stream bs {ios} w v empty fits =
    let size : length (be32 (length bs) ++ list_bytes bs) ≡ 4 + 39 * length bs =
      omega (arith, length-list_bytes bs w) in
    let (r, e, f) =
      round_trip (>>-Emits (append_int32-Emits (length bs)) (blocks_to_stream-Emits bs))
        (>>=-Parses blocks_from_stream (word32-Parses (length bs) (omega arith))
          (blocks_from_stream-Parses bs w))
        v empty (omega arith) in
    (r, advance (length (be32 (length bs) ++ list_bytes bs)) r, e, f)
