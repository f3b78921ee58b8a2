-- ===== src/Filename.antt =====
-- version-1/filename.h and version-1/filename.c: the record that names a file, and its byte form.
-- The name itself is the database key.
pub mod Codec
pub mod Store
use cryptar.Prelude.{ℕ, ◌%◌, Option, none, some, List, ok, pure, ◌>>=◌, ◌>>◌}
use cryptar.Ios.{Stream, buffer, append_int16, append_int32, read_int16, read_int32}

pub record DbFile : Type 0 where
  pub filename : List ℕ
  pub file_id : ℕ
  pub version : ℕ

-- The data of `db_filename_add`.
unfoldable pub to_stream : DbFile → Stream (Unit {0})
to_stream dbf = do append_int16 dbf.version; append_int32 dbf.file_id

-- The version is a `guint8`.
read_file : List ℕ → Stream (Option DbFile)
read_file name = do
  version ← read_int16
  file_id ← read_int32
  pure (some (record { filename = name; file_id = file_id; version = version % 256 }))

unfoldable pub from_stream : List ℕ → Stream (Option DbFile)
unfolding read_file
from_stream name ios = elim (buffer ios) [ none ↦ ok (none, ios) | some _ ↦ read_file name ios ]
