-- ===== src/Summary/Store/RoundTrip.antt =====
-- `db_summary_add` against `db_summary_fetch` of version-1/summary.c.
use cryptar.Prelude.{◌<◌, ◌≡◌, refl, Bool, ap, ◌∙◌, some, length, ok, arith, be32, ne→not_==}
use cryptar.Ios
use cryptar.Ios.Valid.{buffer_size-contents}
use cryptar.Ios.Fields.{append_int32-Emits}
use cryptar.Ios.Buffers.{written-Holds, parsed-Holds}
use cryptar.Database.{summary, BerkeleyDb, Handles, set_handle}
use cryptar.Database.Laws.{ptr-run}
use cryptar.Database.RoundTrip.{db_put-run, db_get-run, lookup-put, set_handle-same}
use cryptar.Summary.{DbSummary}
use cryptar.Summary.Codec.{
  IsWellTyped, summary_bytes, length-summary_bytes, to_stream-Emits, from_stream-Parses,
}
use cryptar.Summary.Store.{add, fetch, fetch_last, read_summary}

module _ (lib : BerkeleyDb) where
  -- A summary whose bytes are stored under its id.
  fetch-found :
      (a : DbSummary) (h : Handles lib) (db : lib.Db)
      → IsWellTyped a
      → h summary ≡ some db
      → lib.lookup db (be32 a.summary_id) ≡ some (summary_bytes a)
      → fetch lib a.summary_id h ≡ ok (some a, h)
  unfolding fetch read_summary
  fetch-found a h db w e found =
      let size : length (summary_bytes a) ≡ 73 = length-summary_bytes a w in
      let (k, ek, pk) = written-Holds (append_int32-Emits a.summary_id) (omega arith) in
      let (r, er, pr) =
        db_get-run lib summary (be32 a.summary_id) (summary_bytes a) k h db pk (omega (arith, size))
          e found in
      let seen : Ios.buffer_size r ≡ 73 =
        buffer_size-contents pr.valid ∙ ap length pr.unread_bytes ∙ size in
      rw (ek, er, seen, parsed-Holds (from_stream-Parses a.summary_id a w) pr) refl

  pub fetch_last-found :
      (a : DbSummary) (h : Handles lib) (db : lib.Db)
      → IsWellTyped a
      → h summary ≡ some db
      → lib.lookup db (be32 a.summary_id) ≡ some (summary_bytes a)
      → fetch_last lib a.summary_id h ≡ ok (some a, h)
  unfolding fetch_last
  fetch_last-found a h db w e found = rw (ptr-run lib summary h db e) (fetch-found a h db w e found)

  -- If the write succeeds, a summary with an id whose fields fit their C types keeps its id when it is
  -- added, and is then fetched under it with every field unchanged.
  pub summary_fetch-add :
      (server : Bool) (a : DbSummary) (h : Handles lib) (db db' : lib.Db)
      → IsWellTyped a
      → 0 < a.summary_id
      → h summary ≡ some db
      → lib.store db (be32 a.summary_id) (summary_bytes a) ≡ some db'
      → (h' : Handles lib) × (add lib server a h ≡ ok (a, h'))
        × (fetch lib a.summary_id h' ≡ ok (some a, h'))
  unfolding add
  summary_fetch-add server a h db db' w pos e stored =
      let size : length (summary_bytes a) ≡ 73 = length-summary_bytes a w in
      let h' : Handles lib = set_handle lib h summary (some db') in
      let (k, ek, pk) = written-Holds (append_int32-Emits a.summary_id) (omega arith) in
      let (d, ed, pd) = written-Holds (to_stream-Emits a) (omega (arith, size)) in
      let put_run =
        db_put-run lib summary (be32 a.summary_id) (summary_bytes a) k d h db db' pk pd e stored in
      (
        h',
        rw (ne→not_== a.summary_id 0 (omega arith), ek, ed, put_run) refl,
        fetch-found a h' db' w (set_handle-same lib h summary (some db'))
            (lookup-put lib db db' (be32 a.summary_id) (summary_bytes a) stored),
      )
