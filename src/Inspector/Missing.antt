-- ===== src/Inspector/Missing.antt =====
-- `find_by_id` of version-1/cryptar-db.c on the databases that have no fetch function.
use cryptar.Prelude.{ℕ, ◌≡◌, refl, Option, some, List, [], ◌∷◌, fault, null_dereference}
use cryptar.Database.{Database, constants, server_constants, keys, BerkeleyDb, Handles}
use cryptar.Database.Opening.{db_open}
use cryptar.Database.Cursors.{CursorLib}
use cryptar.Inspector.{
  database_flag, action_flag, parse_cdb_options, set_flags, set_flag, choose_database,
  choose_action, count_args, set_args, find_by_id, main,
}

-- The databases without a fetch function, by their letters c, e and k.
pub data HasNoFetch : ℕ → Database → Type 0 where
  letter_c : HasNoFetch 99 constants
  letter_e : HasNoFetch 101 server_constants
  letter_k : HasNoFetch 107 keys

-- A record of the constants, the constants of the server or the keys cannot be looked for: whatever the
-- archive and the key are, the command line is accepted, the database is opened and a NULL function is
-- called.
pub main-find :
    (lib : BerkeleyDb) (curs : CursorLib lib) (atoi : List ℕ → ℕ)
    (open_db : Database → Option lib.Db) (fuel letter : ℕ) (d : Database) (db : lib.Db)
    (target key : List ℕ) (h : Handles lib)
    → HasNoFetch letter d
    → open_db d ≡ some db
    → main lib curs atoi open_db fuel
        (parse_cdb_options (database_flag letter ∷ action_flag 102 ∷ []) (target ∷ key ∷ []))
        h
      ≡ fault null_dereference
unfolding main parse_cdb_options set_flags set_flag choose_database choose_action count_args
    set_args find_by_id db_open
main-find lib curs atoi open_db fuel letter d db target key h letter_c e =
    rw (main, db_open, e) refl
main-find lib curs atoi open_db fuel letter d db target key h letter_e e =
    rw (main, db_open, e) refl
main-find lib curs atoi open_db fuel letter d db target key h letter_k e =
    rw (main, db_open, e) refl
