-- ===== src/Filename/Store/RoundTrip.antt =====
-- `db_filename_add` against `db_filename_fetch` of version-1/filename.c.
use cryptar.Prelude.{
  ℕ, ◌+◌, ◌^◌, ◌≤◌, ◌<◌, ◌≡◌, refl, Bool, true, false, ◌∙◌, Option, some, List, length, ok, arith,
  be32,
}
use cryptar.Ios.Buffers.{buffer_of-Holds, written-Holds}
use cryptar.Database.{filenames, index_of, BerkeleyDb, Handles, set_handle}
use cryptar.Database.Laws.{Counter, counters, get_next_index-run}
use cryptar.Database.RoundTrip.{db_put-run, db_get-run, lookup-put, set_handle-same}
use cryptar.Filename.{DbFile}
use cryptar.Filename.Codec.{file_bytes, to_stream-Emits, from_stream-file_bytes}
use cryptar.Filename.Store.{add, fetch}

-- The record that a new file gets.
abbrev pub new_file : List ℕ → ℕ → DbFile
new_file name id = record { filename = name; file_id = id; version = 0 }

module _ (lib : BerkeleyDb) where
  counters-filenames :
      (server : Bool) (h : Handles lib) (p : Option lib.Db)
      → set_handle lib h (counters server) p filenames ≡ h filenames
  counters-filenames true h p = refl
  counters-filenames false h p = refl

  -- If the counter is below its limit and both writes succeed, a name of at most 2 ^ 30 bytes that is
  -- added gets the next index of the counter as its id, and is then fetched with it.
  pub file_fetch-add :
      (server : Bool) (name : List ℕ) (n : ℕ) (h : Handles lib) (cdb cdb' db db' : lib.Db)
      → length name ≤ 2 ^ 30
      → n + 1 < 2 ^ 32
      → h (counters server) ≡ some cdb
      → Counter lib cdb filenames n
      → lib.store cdb (be32 (index_of filenames)) (be32 (n + 1)) ≡ some cdb'
      → h filenames ≡ some db
      → lib.store db name (file_bytes (new_file name (n + 1))) ≡ some db'
      → (h' : Handles lib) × (add lib server name h ≡ ok (new_file name (n + 1), h'))
        × (fetch lib name h' ≡ ok (some (new_file name (n + 1)), h'))
  unfolding add fetch
  file_fetch-add server name n h cdb cdb' db db' hn small e counter counted e' stored =
      let f : DbFile = new_file name (n + 1) in
      let h1 : Handles lib = set_handle lib h (counters server) (some cdb') in
      let same : h1 filenames ≡ some db = counters-filenames server h (some cdb') ∙ e' in
      let h2 : Handles lib = set_handle lib h1 filenames (some db') in
      let (k, ek, pk) = buffer_of-Holds name hn in
      let index_run =
        get_next_index-run lib server filenames n h cdb cdb' small e counter counted in
      let (d, ed, pd) = written-Holds (to_stream-Emits f) (omega arith) in
      let put_run = db_put-run lib filenames name (file_bytes f) k d h1 db db' pk pd same stored in
      let (r, er, pr) =
        db_get-run lib filenames name (file_bytes f) k h2 db' pk (omega arith)
          (set_handle-same lib h1 filenames (some db'))
          (lookup-put lib db db' name (file_bytes f) stored) in
      (
        h2,
        rw (ek, index_run, ed, put_run) refl,
        rw (ek, er, from_stream-file_bytes f r (omega arith) small pr.valid pr.unread_bytes) refl,
      )
