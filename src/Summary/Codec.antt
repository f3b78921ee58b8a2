-- ===== src/Summary/Codec.antt =====
-- The byte form of summaries, version-1/summary.c: writing against reading.
use cryptar.Prelude.{
  ℕ, ◌+◌, ◌%◌, ◌^◌, ◌≤◌, ◌<◌, ◌≡◌, ◌∙◌, ap, List, [], ◌∷◌, ◌++◌, length, length-append, arith, be32,
  ok,
}
use cryptar.Ios.{IosBuf}
use cryptar.Ios.Valid.{IsValid, contents, advance}
use cryptar.Ios.Codec.{Emits, Parses, append-Emits, >>-Emits, >>=-Parses, last-Parses, round_trip}
use cryptar.Ios.Fields.{
  append_int8-Emits, append_int32-Emits, byte-Parses, word32-Parses, bytes-Parses,
}
use cryptar.Summary.{DbSummary, to_stream, from_stream}

-- The fields fit the C types of the structure.
pub record IsWellTyped (a : DbSummary) : Type 0 where
  pub version : a.version < 2 ^ 8
  pub file_id : a.file_id < 2 ^ 32
  pub summary_time : a.summary_time < 2 ^ 32
  pub mod_time : a.mod_time < 2 ^ 32
  pub file_length : a.file_length < 2 ^ 32
  pub inode_number : a.inode_number < 2 ^ 32
  pub permissions : a.permissions < 2 ^ 32
  pub file_sha1 : length a.file_sha1 ≡ 20
  pub block_list_sha1 : length a.block_list_sha1 ≡ 20
  pub block_list_length : a.block_list_length < 2 ^ 32
  pub block_list_remote_id : a.block_list_remote_id < 2 ^ 32

tail_bytes : DbSummary → List ℕ
tail_bytes a =
    a.file_sha1 ++ (a.block_list_sha1 ++ (be32 a.block_list_length ++ be32 a.block_list_remote_id))

unfoldable pub summary_bytes : DbSummary → List ℕ
unfolding tail_bytes
summary_bytes a =
    (a.version % 256 ∷ [])
    ++ (be32 a.file_id
        ++ (be32 a.summary_time
            ++ (be32 a.mod_time
                ++ (be32 a.file_length
                    ++ (be32 a.inode_number ++ (be32 a.permissions ++ tail_bytes a))))))

pub to_stream-Emits : (a : DbSummary) → Emits (to_stream a) (summary_bytes a)
unfolding to_stream summary_bytes
to_stream-Emits a = >>-Emits (append_int8-Emits a.version) (
    >>-Emits (append_int32-Emits a.file_id) (
      >>-Emits (append_int32-Emits a.summary_time) (
        >>-Emits (append_int32-Emits a.mod_time) (
          >>-Emits (append_int32-Emits a.file_length) (
            >>-Emits (append_int32-Emits a.inode_number) (
              >>-Emits (append_int32-Emits a.permissions) (
                >>-Emits (append-Emits a.file_sha1) (
                  >>-Emits (append-Emits a.block_list_sha1) (
                    >>-Emits (append_int32-Emits a.block_list_length)
                      (append_int32-Emits a.block_list_remote_id))))))))))

pub from_stream-Parses :
    (id : ℕ) (a : DbSummary)
    → IsWellTyped a
    → Parses (from_stream id) (summary_bytes a) (record a { summary_id = id })
unfolding from_stream summary_bytes
from_stream-Parses id a w = >>=-Parses _ (byte-Parses a.version w.version) (
    >>=-Parses _ (word32-Parses a.file_id w.file_id) (
      >>=-Parses _ (word32-Parses a.summary_time w.summary_time) (
        >>=-Parses _ (word32-Parses a.mod_time w.mod_time) (
          >>=-Parses _ (word32-Parses a.file_length w.file_length) (
            >>=-Parses _ (word32-Parses a.inode_number w.inode_number) (
              >>=-Parses _ (word32-Parses a.permissions w.permissions) (
                >>=-Parses _ (bytes-Parses 20 a.file_sha1 w.file_sha1) (
                  >>=-Parses _ (bytes-Parses 20 a.block_list_sha1 w.block_list_sha1) (
                    >>=-Parses _ (word32-Parses a.block_list_length w.block_list_length) (
                      last-Parses
                        (λ remote_id. record a {
                          summary_id = id;
                          block_list_remote_id = remote_id;
                        })
                        (word32-Parses a.block_list_remote_id w.block_list_remote_id)))))))))))

pub length-summary_bytes : (a : DbSummary) → IsWellTyped a → length (summary_bytes a) ≡ 73
unfolding summary_bytes
length-summary_bytes a w = omega (
  arith,
  length-append a.file_sha1
      (a.block_list_sha1 ++ (be32 a.block_list_length ++ be32 a.block_list_remote_id)),
  length-append a.block_list_sha1 (be32 a.block_list_length ++ be32 a.block_list_remote_id),
  w.file_sha1,
  w.block_list_sha1,
)

-- A summary whose fields fit their C types, written to a buffer with nothing unread, is read back
-- with every field unchanged but the id, which is the one it is looked up by.
pub summary_from_stream-to_stream :
    (id : ℕ) (a : DbSummary) {ios : IosBuf}
    → IsWellTyped a
    → IsValid ios
    → contents ios ≡ []
    → ios.len + 73 ≤ 2 ^ 30
    → (r : IosBuf) × (to_stream a ios ≡ ok (tt, r))
      × (from_stream id r ≡ ok (record a { summary_id = id }, advance 73 r))
summary_from_stream-to_stream id a {ios} w v empty fits =
    let (r, e, f) =
      round_trip (to_stream-Emits a) (from_stream-Parses id a w) v empty
        (omega (arith, length-summary_bytes a w)) in
    (r, e, f ∙ ap (λ n. ok (record a { summary_id = id }, advance n r)) (length-summary_bytes a w))
