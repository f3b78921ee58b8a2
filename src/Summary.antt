-- ===== src/Summary.antt =====
-- version-1/summary.h and version-1/summary.c: what is known of a file when it was last archived, and
-- its byte form.
pub mod Codec
pub mod Store
use cryptar.Prelude.{ℕ, ◌%◌, ◌^◌, List, [], ◌∷◌, pure, ◌>>=◌, ◌>>◌}
use cryptar.Ios.{Stream, append, append_int8, append_int32, read_byte, read_bytes, read_int32}
use cryptar.Block.{sc_sum_length, zero_checksum}

pub record DbSummary : Type 0 where
  pub summary_id : ℕ
  pub version : ℕ
  pub file_id : ℕ
  pub summary_time : ℕ
  pub mod_time : ℕ
  pub file_length : ℕ
  pub inode_number : ℕ
  pub permissions : ℕ
  pub file_sha1 : List ℕ
  pub block_list_sha1 : List ℕ
  pub block_list_length : ℕ
  pub block_list_remote_id : ℕ

-- The fields of `struct stat` that the program reads.
pub record Stat : Type 0 where
  pub st_mtime : ℕ
  pub st_size : ℕ
  pub st_ino : ℕ
  pub st_mode : ℕ

-- `now` is what `time(0)` returns; each field is cut to a `guint32`.
unfoldable pub new : ℕ → Stat → ℕ → DbSummary
new file_id sb now = record {
  summary_id = file_id;
  version = 0;
  file_id = file_id;
  summary_time = now % 2 ^ 32;
  mod_time = sb.st_mtime % 2 ^ 32;
  file_length = sb.st_size % 2 ^ 32;
  inode_number = sb.st_ino % 2 ^ 32;
  permissions = sb.st_mode % 2 ^ 32;
  file_sha1 = zero_checksum;
  block_list_sha1 = zero_checksum;
  block_list_length = 0;
  block_list_remote_id = 0;
}

unfoldable pub to_stream : DbSummary → Stream (Unit {0})
to_stream a = do
  append_int8 a.version
  append_int32 a.file_id
  append_int32 a.summary_time
  append_int32 a.mod_time
  append_int32 a.file_length
  append_int32 a.inode_number
  append_int32 a.permissions
  append a.file_sha1
  append a.block_list_sha1
  append_int32 a.block_list_length
  append_int32 a.block_list_remote_id

unfoldable pub from_stream : ℕ → Stream DbSummary
from_stream id = do
  version ← read_byte
  file_id ← read_int32
  summary_time ← read_int32
  mod_time ← read_int32
  file_length ← read_int32
  inode_number ← read_int32
  permissions ← read_int32
  file_sha1 ← read_bytes sc_sum_length
  block_list_sha1 ← read_bytes sc_sum_length
  block_list_length ← read_int32
  block_list_remote_id ← read_int32
  pure (record {
    summary_id = id;
    version = version;
    file_id = file_id;
    summary_time = summary_time;
    mod_time = mod_time;
    file_length = file_length;
    inode_number = inode_number;
    permissions = permissions;
    file_sha1 = file_sha1;
    block_list_sha1 = block_list_sha1;
    block_list_length = block_list_length;
    block_list_remote_id = block_list_remote_id;
  })
