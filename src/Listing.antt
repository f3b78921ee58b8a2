-- ===== src/Listing.antt =====
-- version-1/list.c: the listing of the files that are archived.
--
-- A line is the name of a file, with its summary where the verbose option asks for it; how the times are
-- printed is left out. `verbose` is the flag VERBOSE_FILES.

pub mod All
use cryptar.Prelude.{
  ℕ, zero, suc, Bool, Option, none, some, List, [], ◌∷◌, if◌then◌else◌, Result, ok, fault,
  assertion_failed, out_of_fuel, pure, stop, lift, ◌>>=◌,
}
use cryptar.Database.{BerkeleyDb, Store}
use cryptar.Database.Cursors.{CursorLib}
use cryptar.Filename.{DbFile}
use cryptar.Filename.Store.Cursor
use cryptar.Summary.{DbSummary}
use cryptar.Summary.Store as Summaries

pub record Line : Type 0 where
  pub filename : List ℕ
  pub details : Option DbSummary

unfoldable pub list_display_file : (verbose : Bool) → DbFile → Option DbSummary → Result Line
list_display_file verbose dbf none = fault assertion_failed
list_display_file verbose dbf (some dbs) =
    ok (record { filename = dbf.filename; details = if verbose then some dbs else none })

module _ (lib : BerkeleyDb) (curs : CursorLib lib) (verbose : Bool) where
  -- The loop over the cursor, on fuel.
  unfoldable pub list_files : ℕ → curs.Cursor → Store lib (List Line)
  list_files zero c = stop out_of_fuel
  list_files (suc fuel) c = do
    next ← lift (Cursor.curs_next lib curs c)
    elim next [
      | none ↦ pure []
      | some (dbf, c') ↦ do
        dbs ← Summaries.fetch_last lib dbf.file_id
        line ← lift (list_display_file verbose dbf dbs)
        lines ← list_files fuel c'
        pure (line ∷ lines)
    ]

  unfoldable pub do_list : ℕ → Store lib (List Line)
  do_list fuel = do c ← Cursor.curs_begin lib curs; list_files fuel c
