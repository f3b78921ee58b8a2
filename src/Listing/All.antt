-- ===== src/Listing/All.antt =====
-- `do_list` of version-1/list.c against what is stored.
use cryptar.Prelude.{
  ℕ, suc, ◌^◌, ◌≤◌, ◌<◌, ◌≡◌, refl, ap, ◌∙◌, sym, Bool, true, false, Option, none, some, List, [],
  ◌∷◌, length, be32, if◌then◌else◌, same_bytes, ok, arith, ne→not_==, ◌||◌, Bool-cases, inl, inr,
}
use cryptar.Ios
use cryptar.Ios.{IosBuf, read, strndup}
use cryptar.Ios.Valid.{buffer_size-contents, advance}
use cryptar.Ios.Codec.{Parses}
use cryptar.Ios.Fields.{NoNul, before_nul-NoNul, read-Parses, copy_from-append}
use cryptar.Ios.Buffers.{set_buffer-Holds, parsed-Holds}
use cryptar.Database.Laws.{ptr-run}
use cryptar.Database.{filenames, summary, BerkeleyDb, Handles}
use cryptar.Database.Cursors
use cryptar.Database.Cursors.{CursorLib, Records, Walk, record_of, record_at, not_found}
use cryptar.Filename.{DbFile}
use cryptar.Filename.Codec.{file_bytes, from_stream-file_bytes}
use cryptar.Filename.Store.Cursor
use cryptar.Filename.Store.Cursor.{key_name, named_record}
use cryptar.Summary.{DbSummary}
use cryptar.Summary.Codec.{IsWellTyped, summary_bytes}
use cryptar.Summary.Store as Summaries
use cryptar.Summary.Store.RoundTrip.{fetch_last-found}
use cryptar.Listing.{Line, list_display_file, list_files, do_list}

-- The name of a file as it is stored: not empty, no zero in it.
pub record IsStorable (f : DbFile) : Type 0 where
  pub some_name : 0 < length f.filename
  pub short_name : length f.filename ≤ 2 ^ 30
  pub no_nul : NoNul f.filename
  pub version_fits : f.version < 2 ^ 8
  pub id_fits : f.file_id < 2 ^ 32

key_name-Parses : (str : List ℕ) → NoNul str → Parses (key_name (length str)) str (some str)
unfolding key_name strndup
key_name-Parses str h = record {
  run = λ ios rest v e. rw (
    read-Parses ios str rest v e,
    copy_from-append str rest (advance (length str) ios),
    before_nul-NoNul str h,
  );
}

module _ (lib : BerkeleyDb) (curs : CursorLib lib) where
  next_record :
      (c c' : curs.Cursor) (key value : List ℕ) (k d : IosBuf)
      → curs.c_get c ≡ record_at key value c'
      → Ios.set_buffer key Ios.new ≡ ok (tt, k)
      → Ios.set_buffer value Ios.new ≡ ok (tt, d)
      → Cursors.curs_next lib curs c Ios.new Ios.new ≡ ok (some (k, d, c'))
  unfolding Cursors.curs_next
  next_record c c' key value k d e ek ed = rw (Cursors.curs_next, e, ek, ed) refl

  -- The record under the cursor is given with the name of its key.
  curs_next-record :
      (c c' : curs.Cursor) (f : DbFile)
      → IsStorable f
      → curs.c_get c ≡ record_at f.filename (file_bytes f) c'
      → Cursor.curs_next lib curs c ≡ ok (some (f, c'))
  unfolding Cursor.curs_next named_record
  curs_next-record c c' f w e =
      let (k, ek, pk) = set_buffer-Holds f.filename w.short_name in
      let (d, ed, pd) = set_buffer-Holds (file_bytes f) (omega arith) in
      let size : Ios.buffer_size k ≡ length f.filename =
        buffer_size-contents pk.valid ∙ ap length pk.unread_bytes in
      rw
        (
          Cursor.curs_next,
          next_record c c' f.filename (file_bytes f) k d e ek ed,
          size,
          ne→not_== (length f.filename) 0 (omega (arith, w.some_name)),
          parsed-Holds (key_name-Parses f.filename w.no_nul) pk,
          from_stream-file_bytes f d w.version_fits w.id_fits pd.valid pd.unread_bytes,
        )
        refl

  -- Behind the last record nothing is given.
  curs_next-end :
      (c : curs.Cursor)
      → curs.c_get c ≡ not_found
      → curs.c_close c ≡ true
      → Cursor.curs_next lib curs c ≡ ok none
  unfolding Cursor.curs_next Cursors.curs_next Cursors.curs_end
  curs_next-end c e closed =
      rw (Cursor.curs_next, Cursors.curs_next, e, Cursors.curs_end, closed) refl

-- What the databases have of some files: the records under their names, and the lines for them.
abbrev pub stored_as : List (DbFile × DbSummary) → Records
stored_as [] = []
stored_as ((f, s) ∷ files) = (f.filename, file_bytes f) ∷ stored_as files

abbrev pub lines_of : Bool → List (DbFile × DbSummary) → List Line
lines_of verbose [] = []
lines_of verbose ((f, s) ∷ files) =
    record { filename = f.filename; details = if verbose then some s else none }
    ∷ lines_of verbose files

abbrev pub is_listed : List ℕ → List Line → Bool
is_listed name [] = false
is_listed name (line ∷ lines) = same_bytes line.filename name || is_listed name lines

abbrev pub is_some : Option (List ℕ) → Bool
is_some none = false
is_some (some value) = true

is_listed-lines_of :
    (verbose : Bool) (name : List ℕ) (files : List (DbFile × DbSummary))
    → is_listed name (lines_of verbose files) ≡ is_some (record_of (stored_as files) name)
is_listed-lines_of verbose name [] = refl
is_listed-lines_of verbose name ((f, s) ∷ files) = elim (Bool-cases (same_bytes f.filename name)) [
  | inl t ↦ rw t refl
  | inr n ↦ rw n (is_listed-lines_of verbose name files)
]

module _ (lib : BerkeleyDb) (curs : CursorLib lib) (verbose : Bool) (h : Handles lib)
    (sdb : lib.Db) where
  -- Each file can be stored, and its summary is stored under its id.
  abbrev pub AllListed : List (DbFile × DbSummary) → Type 0
  AllListed [] = Unit
  AllListed ((f, s) ∷ files) =
      IsStorable f
      × IsWellTyped s
      × (s.summary_id ≡ f.file_id)
      × (lib.lookup sdb (be32 s.summary_id) ≡ some (summary_bytes s))
      × AllListed files

  list_files-lines_of :
      (files : List (DbFile × DbSummary)) (c : curs.Cursor)
      → h summary ≡ some sdb
      → AllListed files
      → Walk curs.c_get curs.c_close c (stored_as files)
      → list_files lib curs verbose (suc (length files)) c h ≡ ok (lines_of verbose files, h)
  unfolding list_files list_display_file
  list_files-lines_of [] c o a (e, closed) = rw (curs_next-end lib curs c e closed) refl
  list_files-lines_of ((f, s) ∷ files) c o (w, ws, same, found, a) (c', e, walk) =
      rw
        (
          curs_next-record lib curs c c' f w e,
          ap (λ id. Summaries.fetch_last lib id h) (sym same)
              ∙ fetch_last-found lib s h sdb ws o found,
          list_files-lines_of files c' o a walk,
        )
        refl

  begun_at :
      (db : lib.Db) (c : curs.Cursor)
      → h filenames ≡ some db
      → curs.cursor db ≡ some c
      → Cursor.curs_begin lib curs h ≡ ok (c, h)
  unfolding Cursor.curs_begin Cursors.curs_begin
  begun_at db c e begun =
      rw (Cursor.curs_begin, Cursors.curs_begin, ptr-run lib filenames h db e, begun) refl

  -- The listing has a line for every file whose record the cursor gives, with its last summary if that is
  -- asked for, in the order of the cursor, and ends; a name is in it exactly if a record is stored under
  -- it. No call of the cursor fails, the names are C strings, and every file has a summary.
  pub do_list-lines_of :
      (files : List (DbFile × DbSummary)) (db : lib.Db) (c : curs.Cursor)
      → h filenames ≡ some db
      → h summary ≡ some sdb
      → curs.cursor db ≡ some c
      → Walk curs.c_get curs.c_close c (stored_as files)
      → AllListed files
      → (do_list lib curs verbose (suc (length files)) h ≡ ok (lines_of verbose files, h))
        × ((name : List ℕ) → is_listed name (lines_of verbose files) ≡ is_some (lib.lookup db name))
  unfolding do_list
  do_list-lines_of files db c e o begun walk a = (
    rw (begun_at db c e begun) (list_files-lines_of files c o a walk),
    λ name.
        is_listed-lines_of verbose name files
        ∙ ap is_some (curs.walk_records db c (stored_as files) name begun walk),
  )
