-- ===== src/Filename/Store.antt =====
-- version-1/filename.c: file records in their database, under the file's name.
pub mod Cursor
pub mod RoundTrip
use cryptar.Prelude.{ℕ, Bool, Option, List, Result, lift, pure, ◌>>=◌, ◌>>◌}
use cryptar.Ios
use cryptar.Database
use cryptar.Database.{filenames, BerkeleyDb, Store}
use cryptar.Filename
use cryptar.Filename.{DbFile}

module _ (lib : BerkeleyDb) where
  unfoldable pub add : (server : Bool) → (filename : List ℕ) → Store lib DbFile
  add server filename = do
    key ← lift (Ios.buffer_of filename)
    id ← Database.get_next_index lib server filenames
    let dbf : DbFile = record { filename = filename; file_id = id; version = 0 }
    value ← lift (Ios.written (Filename.to_stream dbf))
    Database.db_put lib filenames key value
    pure dbf

  unfoldable pub fetch : (filename : List ℕ) → Store lib (Option DbFile)
  fetch filename = do
    key ← lift (Ios.buffer_of filename)
    value ← Database.db_get lib filenames key Ios.new
    lift (Ios.parsed (Filename.from_stream filename) value)
