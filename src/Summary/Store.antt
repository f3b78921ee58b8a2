-- ===== src/Summary/Store.antt =====
-- version-1/summary.c: summaries in their database.
pub mod RoundTrip
use cryptar.Prelude.{
  ℕ, Bool, Option, none, some, Result, lift, pure, ◌==◌, if◌then◌else◌, ◌>>=◌, ◌>>◌,
}
use cryptar.Ios
use cryptar.Ios.{IosBuf}
use cryptar.Database
use cryptar.Database.{summary, BerkeleyDb, Store}
use cryptar.Summary
use cryptar.Summary.{DbSummary}

module _ (lib : BerkeleyDb) where
  -- The summary as it is afterwards: one without an id is given the next.
  unfoldable pub add : (server : Bool) → DbSummary → Store lib DbSummary
  add server a = do
    id ←
        (if a.summary_id == 0
          then Database.get_next_index lib server summary
          else pure a.summary_id)
    key ← lift (Ios.written (Ios.append_int32 id))
    value ← lift (Ios.written (Summary.to_stream (record a { summary_id = id })))
    Database.db_put lib summary key value
    pure (record a { summary_id = id })

  read_summary : ℕ → IosBuf → Store lib (Option DbSummary)
  read_summary id value =
      if Ios.buffer_size value == 0
      then pure none
      else do dbs ← lift (Ios.parsed (Summary.from_stream id) value); pure (some dbs)

  unfoldable pub fetch : ℕ → Store lib (Option DbSummary)
  unfolding read_summary
  fetch id = do
    key ← lift (Ios.written (Ios.append_int32 id))
    value ← Database.db_get lib summary key Ios.new
    read_summary id value

  unfoldable pub fetch_last : ℕ → Store lib (Option DbSummary)
  fetch_last id = do Database.ptr lib summary; fetch id
