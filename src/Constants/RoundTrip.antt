-- ===== src/Constants/RoundTrip.antt =====
-- Putting against getting in version-1/constants.c.
use cryptar.Prelude.{ℕ, ◌^◌, ◌≤◌, ◌<◌, ◌≡◌, refl, some, List, ◌++◌, length, ok, arith, be32}
use cryptar.Ios.Fields.{
  append_int32-Emits, append_string-Emits, word32-Parses, NoNul, read_str-Parses,
}
use cryptar.Ios.Buffers.{buffer_of-Holds, written-Holds, parsed-Holds}
use cryptar.Database.{constants, BerkeleyDb, Handles, set_handle}
use cryptar.Database.RoundTrip.{db_put-run, db_get-run, lookup-put, set_handle-same}
use cryptar.Constants.{put_int, get_int, put_string, get_string}

module _ (lib : BerkeleyDb) where
  -- If the write succeeds, a 32 bit integer that is stored under a name of at most 2 ^ 30 bytes is
  -- found again under it.
  pub get_int-put_int :
      (key : List ℕ) (val : ℕ) (h : Handles lib) (db db' : lib.Db)
      → length key ≤ 2 ^ 30
      → val < 2 ^ 32
      → h constants ≡ some db
      → lib.store db key (be32 val) ≡ some db'
      → (h' : Handles lib) × (put_int lib key val h ≡ ok (tt, h'))
        × (get_int lib key h' ≡ ok (val, h'))
  unfolding put_int get_int
  get_int-put_int key val h db db' hk hv e stored =
      let h' : Handles lib = set_handle lib h constants (some db') in
      let (k, ek, pk) = buffer_of-Holds key hk in
      let (d, ed, pd) = written-Holds (append_int32-Emits val) (omega arith) in
      let put_run = db_put-run lib constants key (be32 val) k d h db db' pk pd e stored in
      let (r, er, pr) =
        db_get-run lib constants key (be32 val) k h' db' pk (omega arith)
          (set_handle-same lib h constants (some db'))
          (lookup-put lib db db' key (be32 val) stored) in
      (h', rw (ek, ed) put_run, rw (ek, er, parsed-Holds (word32-Parses val hv) pr) refl)

  -- If the write succeeds, a text that is not empty, has no zero byte and is shorter than 2 ^ 29 bytes
  -- and is stored under a name of at most 2 ^ 30 bytes is found again under it.
  pub get_string-put_string :
      (key val : List ℕ) (h : Handles lib) (db db' : lib.Db)
      → length key ≤ 2 ^ 30
      → length val < 2 ^ 29
      → 0 < length val
      → NoNul val
      → h constants ≡ some db
      → lib.store db key (be32 (length val) ++ val) ≡ some db'
      → (h' : Handles lib) × (put_string lib key val h ≡ ok (tt, h'))
        × (get_string lib key h' ≡ ok (some val, h'))
  unfolding put_string get_string
  get_string-put_string key val h db db' hk hv pos text e stored =
      let h' : Handles lib = set_handle lib h constants (some db') in
      let bytes : List ℕ = be32 (length val) ++ val in
      let (k, ek, pk) = buffer_of-Holds key hk in
      let (d, ed, pd) = written-Holds (append_string-Emits val) (omega arith) in
      let put_run = db_put-run lib constants key bytes k d h db db' pk pd e stored in
      let (r, er, pr) =
        db_get-run lib constants key bytes k h' db' pk (omega arith)
          (set_handle-same lib h constants (some db')) (lookup-put lib db db' key bytes stored) in
      (
        h',
        rw (ek, ed) put_run,
        rw (ek, er, parsed-Holds (read_str-Parses val text pos (omega arith)) pr) refl,
      )
