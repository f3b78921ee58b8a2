-- ===== src/Remote/RoundTrip.antt =====
-- `db_archive_add` against `db_archive_fetch` of version-1/remote.c.
use cryptar.Prelude.{
  ℕ, ◌+◌, ◌%◌, ◌^◌, ◌≤◌, ◌<◌, ◌≡◌, refl, Bool, true, false, ◌∙◌, Option, some, length, take, ok,
  arith, be32,
}
use cryptar.Ios.{IosBuf}
use cryptar.Ios.Valid.{IsValid}
use cryptar.Ios.Fields.{append_int32-Emits}
use cryptar.Ios.Buffers.{Holds, written-Holds}
use cryptar.Database.{archive, index_of, BerkeleyDb, Handles, set_handle}
use cryptar.Database.Laws.{Counter, counters, get_next_index-run}
use cryptar.Database.RoundTrip.{db_put-run, db_get-run, lookup-put, set_handle-same}
use cryptar.Remote.{DbArchive, add, fetch}
use cryptar.Remote.Codec.{
  archive_bytes, archive_of, to_stream-Emits, from_stream-archive_bytes, whole_buffer,
}

-- Data that is to be stored, in a buffer that nothing was read from.
pub record IsStorable (ios : IosBuf) : Type 0 where
  pub valid : IsValid ios
  pub at_start : ios.read_ptr ≡ 0
  pub fits : ios.len + 3 ≤ 2 ^ 30

module _ (lib : BerkeleyDb) where
  counters-archive :
      (server : Bool) (h : Handles lib) (p : Option lib.Db)
      → set_handle lib h (counters server) p archive ≡ h archive
  counters-archive true h p = refl
  counters-archive false h p = refl

  -- If the counter of archives is below its limit and both writes succeed, data of at most 2 ^ 30 - 3
  -- bytes that is added gets the next index of the counter as its id. If its length modulo 2 ^ 16 is not
  -- zero, a fetch of that id gives a buffer with that many bytes from the front of the data.
  pub remote_fetch-add :
      (server : Bool) (ios : IosBuf) (n : ℕ) (h : Handles lib) (cdb cdb' db db' : lib.Db)
      → IsStorable ios
      → 0 < ios.len % 2 ^ 16
      → n + 1 < 2 ^ 32
      → h (counters server) ≡ some cdb
      → Counter lib cdb archive n
      → lib.store cdb (be32 (index_of archive)) (be32 (n + 1)) ≡ some cdb'
      → h archive ≡ some db
      → lib.store db (be32 (n + 1)) (archive_bytes (archive_of (n + 1) 0 ios)) ≡ some db'
      → (h' : Handles lib) × (content : IosBuf) × (add lib server (archive_of 0 0 ios) h
          ≡ ok (n + 1, h'))
        × (fetch lib (n + 1) h' ≡ ok (some (archive_of (n + 1) 0 content), h'))
        × Holds (take (ios.len % 2 ^ 16) ios.buf) content
  unfolding add fetch
  remote_fetch-add server ios n h cdb cdb' db db' s pos small e counter counted e' stored =
      let b : DbArchive = archive_of (n + 1) 0 ios in
      let h1 : Handles lib = set_handle lib h (counters server) (some cdb') in
      let same : h1 archive ≡ some db = counters-archive server h (some cdb') ∙ e' in
      let h2 : Handles lib = set_handle lib h1 archive (some db') in
      let (k, ek, pk) = written-Holds (append_int32-Emits (n + 1)) (omega arith) in
      let index_run = get_next_index-run lib server archive n h cdb cdb' small e counter counted in
      let fits : length (archive_bytes b) ≤ 2 ^ 30 = omega (arith, s.fits, s.valid.measured) in
      let (d, ed, pd) = written-Holds (to_stream-Emits b (whole_buffer s.valid s.at_start)) fits in
      let put_run =
        db_put-run lib archive (be32 (n + 1)) (archive_bytes b) k d h1 db db' pk pd same stored in
      let (r, er, pr) =
        db_get-run lib archive (be32 (n + 1)) (archive_bytes b) k h2 db' pk fits
          (set_handle-same lib h1 archive (some db'))
          (lookup-put lib db db' (be32 (n + 1)) (archive_bytes b) stored) in
      let (r', content, run, p) =
        from_stream-archive_bytes (n + 1) b r (omega arith) s.valid pos pr.valid pr.unread_bytes in
      (h2, content, rw (index_run, ek, ed, put_run) refl, rw (ek, er, run) refl, p)
