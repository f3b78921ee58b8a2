-- ===== src/Remote.antt =====
-- version-1/remote.h and version-1/remote.c: the blocks as the server stores them.
pub mod Codec
pub mod RoundTrip
use cryptar.Prelude.{
  ℕ, ◌%◌, Bool, Option, none, some, List, ◌==◌, if◌then◌else◌, ok, fault, assertion_failed, be32,
  State, pure, lift, assert, not, ◌>>=◌, ◌>>◌,
}
use cryptar.Ios
use cryptar.Ios.{IosBuf, Stream}
use cryptar.Database
use cryptar.Database.{Database, archive, BerkeleyDb, Store}

pub record DbArchive : Type 0 where
  pub archive_id : ℕ
  pub version : ℕ
  pub ios : IosBuf

-- The data of `db_archive_add`; the length is a `gint16`.
unfoldable pub to_stream : DbArchive → Stream (Unit {0})
to_stream b = do
  Ios.append_int8 b.version
  Ios.append_int16 (Ios.buffer_size b.ios)
  Ios.append_ios b.ios

-- `g_new(char, 0)` is NULL, which `ios_set_buffer` does not accept.
unfoldable pub read_archive : ℕ → Stream (Option DbArchive)
read_archive id = do
  version ← Ios.read_byte
  n ← Ios.read_int16
  bytes ← Ios.read_bytes n
  assert (not (n == 0))
  ios ← lift (Ios.buffer_of bytes)
  pure (some (record { archive_id = id; version = version; ios = ios }))

-- `none` is NULL: nothing is stored under the id.
unfoldable pub from_stream : ℕ → Stream (Option DbArchive)
from_stream id ios = elim (Ios.buffer ios) [ none ↦ ok (none, ios) | some _ ↦ read_archive id ios ]

module _ (lib : BerkeleyDb) where
  -- The id that the archive has afterwards.
  unfoldable pub add : Bool → DbArchive → Store lib ℕ
  add server b = do
    id ←
        (if b.archive_id == 0
          then Database.get_next_index lib server archive
          else pure b.archive_id)
    key ← lift (Ios.written (Ios.append_int32 id))
    value ← lift (Ios.written (to_stream (record b { archive_id = id })))
    Database.db_put lib archive key value
    pure id

  unfoldable pub fetch : ℕ → Store lib (Option DbArchive)
  fetch id = do
    key ← lift (Ios.written (Ios.append_int32 id))
    value ← Database.db_get lib archive key Ios.new
    lift (Ios.parsed (from_stream id) value)
