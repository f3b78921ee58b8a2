-- ===== src/Tests/Listed.antt =====
-- A listing of version-1/list.c over databases that are lists of records.
use cryptar.Prelude.{
  ℕ, ◌≡◌, refl, ap, sym, ◌∙◌, true, false, Option, none, some, List, [], ◌∷◌, same_bytes,
  if◌then◌else◌, ok, be32, arith,
}
use cryptar.Database.{filenames, summary, BerkeleyDb, Handles}
use cryptar.Database.Cursors.{
  Got, get_error, not_found, record_at, CursorLib, Records, Walk, record_of,
}
use cryptar.Filename.{DbFile}
use cryptar.Filename.Codec.{file_bytes}
use cryptar.Summary
use cryptar.Summary.{DbSummary}
use cryptar.Summary.Codec.{IsWellTyped, summary_bytes}
use cryptar.Inspector.{file, find_by_id, display_all}
use cryptar.Inspector.Walking.{stored_files, display_all-find_by_id}
use cryptar.Listing.{do_list}
use cryptar.Listing.All.{IsStorable, stored_as, lines_of, is_listed, is_some, do_list-lines_of}

abbrev pub or_none : Option Records → Records
or_none none = []
or_none (some rs) = rs

pub found_first :
    (rs : Records) (key value : List ℕ) (rs' : Records) (j : List ℕ)
    → Path (Option Records) (some ((key, value) ∷ rs)) (some rs')
    → record_of rs' j ≡ (if same_bytes key j then some value else record_of rs j)
found_first rs key value rs' j e = ap (λ r. record_of r j) (sym (ap or_none e))

-- A new record hides an older one.
abbrev pub shelf : BerkeleyDb
shelf = record {
  Db = Records;
  lookup = record_of;
  store = λ rs key value. some ((key, value) ∷ rs);
  remove = λ rs key. some rs;
  lookup-store = found_first;
}

abbrev pub first_record : Records → Got Records
first_record [] = not_found
first_record ((key, value) ∷ rest) = record_at key value rest

got_records : Got Records → Records
got_records get_error = []
got_records not_found = []
got_records (record_at key value rest) = (key, value) ∷ rest

pub walked : (c rs : Records) → Walk first_record (λ r. true) c rs → rs ≡ c
unfolding got_records
walked [] [] w = refl
walked (r ∷ c) [] (e, w) = sym (ap got_records e)
walked [] ((key, value) ∷ rs) (c', e, w) = absurd (cc)
walked ((k, v) ∷ c) ((key, value) ∷ rs) (c', e, w) =
    ap (λ r. (key, value) ∷ r) (walked c' rs w) ∙ sym (ap got_records e)

abbrev pub shelf_cursors : CursorLib shelf
shelf_cursors = record {
  Cursor = Records;
  cursor = λ rs. some rs;
  c_get = first_record;
  c_close = λ r. true;
  walk_records =
      λ db c rs key begun w. ap (λ r. record_of r key) (walked c rs w ∙ sym (ap or_none begun));
}

abbrev a_file : DbFile
a_file = record { filename = 97 ∷ 98 ∷ []; file_id = 7; version = 0 }

abbrev its_summary : DbSummary
its_summary = Summary.new 7 (record { st_mtime = 5; st_size = 10; st_ino = 11; st_mode = 12 }) 1000

abbrev one_file : List (DbFile × DbSummary)
one_file = (a_file, its_summary) ∷ []

-- The two databases of the listing.
abbrev shelves : Handles shelf
shelves filenames = some (stored_as one_file)
shelves summary = some ((be32 7, summary_bytes its_summary) ∷ [])
shelves _ = none

its_summary-IsWellTyped : IsWellTyped its_summary
unfolding Summary.new
its_summary-IsWellTyped = omega arith

its_id : its_summary.summary_id ≡ a_file.file_id
unfolding Summary.new
its_id = refl

its_record :
    record_of ((be32 7, summary_bytes its_summary) ∷ []) (be32 7) ≡ some (summary_bytes its_summary)
its_record = refl

do_list-lines_of_example :
    (do_list shelf shelf_cursors true 2 shelves ≡ ok (lines_of true one_file, shelves))
    × ((name : List ℕ)
        → is_listed name (lines_of true one_file) ≡ is_some (record_of (stored_as one_file) name))
unfolding Summary.new
do_list-lines_of_example =
    do_list-lines_of shelf shelf_cursors true shelves ((be32 7, summary_bytes its_summary) ∷ [])
      one_file (stored_as one_file) (stored_as one_file) refl refl refl (_, refl, (refl, refl))
      (omega arith, its_summary-IsWellTyped, its_id, its_record, tt)

a_file-IsStorable : IsStorable a_file
a_file-IsStorable = omega arith

-- The file records of a database are shown.
display_all-find_by_id_example :
    (display_all shelf shelf_cursors false filenames 2 shelves ≡ ok (file a_file ∷ [], shelves))
    × ((f : DbFile)
        → IsStorable f
        → record_of (stored_files (a_file ∷ [])) f.filename ≡ some (file_bytes f)
        → find_by_id shelf (λ text. 0) filenames f.filename shelves ≡ ok (file f, shelves))
display_all-find_by_id_example =
    display_all-find_by_id shelf shelf_cursors (λ text. 0) false (a_file ∷ []) shelves
      (stored_files (a_file ∷ [])) (stored_files (a_file ∷ [])) refl refl (a_file-IsStorable, tt)
      (_, refl, (refl, refl))
