-- ===== src/Constants/Missing.antt =====
-- `const_get_int` of version-1/constants.c for a name under which nothing is stored.
use cryptar.Prelude.{ℕ, ◌^◌, ◌≤◌, ◌≡◌, refl, none, some, List, length, fault, out_of_bounds}
use cryptar.Ios
use cryptar.Ios.Buffers.{buffer_of-Holds, unread-Holds}
use cryptar.Constants
use cryptar.Database.{constants, BerkeleyDb, Handles, db_get}
use cryptar.Database.Laws.{get_bytes-run}

module _ (lib : BerkeleyDb) where
  -- The empty buffer is read, which stops the program.
  pub get_int-missing :
      (key : List ℕ) (h : Handles lib) (db : lib.Db)
      → length key ≤ 2 ^ 30
      → h constants ≡ some db
      → lib.lookup db key ≡ none
      → Constants.get_int lib key h ≡ fault out_of_bounds
  unfolding Constants.get_int db_get Ios.reset Ios.read_int32 Ios.load32
  get_int-missing key h db short opened missing =
      let (k, ek, pk) = buffer_of-Holds key short in
      rw (ek, unread-Holds key pk, get_bytes-run lib constants key h db opened, missing) refl
