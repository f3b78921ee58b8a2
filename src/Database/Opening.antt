-- ===== src/Database/Opening.antt =====
-- Opening and closing the databases, version-1/db_misc.c. What `open_db` makes of Berkeley DB is an argument,
-- `none` where it gives NULL.
use cryptar.Prelude.{
  ℕ, List, [], ◌∷◌, if◌then◌else◌, Option, none, some, ◌==◌, not, Bool, false, fault, ok,
  assertion_failed, pure, ◌>>=◌, ◌>>◌,
}
use cryptar.Constants
use cryptar.Database.{
  Database, filenames, summary, blocks, archive, constants, server_constants, keys, BerkeleyDb,
  Store, set_handle,
}

-- The name of a preference, as bytes.
abbrev pub pref_archive_id : List ℕ
pref_archive_id = 97 ∷ 114 ∷ 99 ∷ 104 ∷ 105 ∷ 118 ∷ 101 ∷ 95 ∷ 105 ∷ 100 ∷ []

abbrev pub pref_archive_pass : List ℕ
pref_archive_pass = 97 ∷ 114 ∷ 99 ∷ 104 ∷ 105 ∷ 118 ∷ 101 ∷ 95 ∷ 112 ∷ 97 ∷ 115 ∷ 115 ∷ []

module _ (lib : BerkeleyDb) where
  -- An error of `close` is only warned of.
  unfoldable pub db_close : Database → Store lib (Unit {0})
  db_close d h = ok (tt, set_handle lib h d none)

  -- Every database that is open is closed; closing one that is not changes nothing.
  unfoldable pub db_close_all : Store lib (Unit {0})
  db_close_all = do
    db_close filenames
    db_close summary
    db_close blocks
    db_close archive
    db_close constants
    db_close server_constants
    db_close keys

module _ (lib : BerkeleyDb) (open_db : Database → Option lib.Db) where
  unfoldable pub db_open : Database → Store lib (Unit {0})
  db_open d h = elim (open_db d) [
    | none ↦ fault assertion_failed
    | some db ↦ ok (tt, set_handle lib h d (some db))
  ]

  unfoldable pub db_open_client_dbs : Store lib (Unit {0})
  db_open_client_dbs = do db_open filenames; db_open summary; db_open blocks; db_open constants

  -- Whether the client may go on; the password that it gives is not looked at.
  unfoldable pub db_open_server_dbs : (id pass : ℕ) → Store lib Bool
  db_open_server_dbs id pass = do
    db_open server_constants
    db_open archive
    stored_id ← Constants.get_int lib pref_archive_id
    if stored_id == id
        then (Constants.get_int lib pref_archive_pass >>= λ stored. pure (not (stored == 0)))
        else pure false
