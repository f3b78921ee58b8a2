-- ===== src/Inspector/Walking.antt =====
-- `display_all` and `find_by_id` of version-1/cryptar-db.c on the file records.
use cryptar.Prelude.{
  ℕ, suc, ◌≡◌, refl, sym, ◌∙◌, true, false, some, List, [], ◌∷◌, length, ok, arith, Bool,
  if◌then◌else◌,
}
use cryptar.Ios.Fields.{before_nul-NoNul}
use cryptar.Ios.Buffers.{buffer_of-Holds}
use cryptar.Database.{filenames, BerkeleyDb, Handles}
use cryptar.Database.Laws.{ptr-run}
use cryptar.Database.RoundTrip.{db_get-run}
use cryptar.Database.Cursors.{CursorLib, Records, Walk, record_of}
use cryptar.Filename.{DbFile}
use cryptar.Filename.Codec.{file_bytes, from_stream-file_bytes}
use cryptar.Filename.Store as Files
use cryptar.Listing.All.{IsStorable}
use cryptar.Inspector.{
  Shown, file, name, display, show_one, show_id, show_record, find_by_id, display_loop, display_all,
}

-- What the database has of some files, and what is shown of them.
abbrev pub stored_files : List DbFile → Records
stored_files [] = []
stored_files (f ∷ files) = (f.filename, file_bytes f) ∷ stored_files files

abbrev pub shown_files : Bool → List DbFile → List Shown
shown_files ids [] = []
shown_files ids (f ∷ files) = (if ids then name f.filename else file f) ∷ shown_files ids files

abbrev pub AllStorable : List DbFile → Type 0
AllStorable [] = Unit
AllStorable (f ∷ files) = IsStorable f × AllStorable files

show_one-file :
    (ids : Bool) (f : DbFile)
    → IsStorable f
    → show_one ids filenames f.filename (file_bytes f)
      ≡ ok ((if ids then name f.filename else file f) ∷ [])
unfolding show_one show_id show_record display
show_one-file true f w =
    let (r, e, p) = buffer_of-Holds (file_bytes f) (omega arith) in
    rw (e, before_nul-NoNul f.filename w.no_nul) refl
show_one-file false f w =
    let (r, e, p) = buffer_of-Holds (file_bytes f) (omega arith) in
    rw
      (
        e,
        before_nul-NoNul f.filename w.no_nul,
        from_stream-file_bytes f r w.version_fits w.id_fits p.valid p.unread_bytes,
      )
      refl

module _ (lib : BerkeleyDb) (curs : CursorLib lib) where
  display_loop-files :
      (ids : Bool) (files : List DbFile) (c : curs.Cursor)
      → AllStorable files
      → Walk curs.c_get curs.c_close c (stored_files files)
      → display_loop lib curs ids filenames (suc (length files)) c ≡ ok (shown_files ids files)
  unfolding display_loop
  display_loop-files ids [] c a (e, closed) = rw (display_loop, e, closed) refl
  display_loop-files ids (f ∷ files) c (w, a) (c', e, walk) =
      rw (display_loop, e, show_one-file ids f w, display_loop-files ids files c' a walk) refl

  fetch-file :
      (f : DbFile) (h : Handles lib) (db : lib.Db)
      → IsStorable f
      → h filenames ≡ some db
      → lib.lookup db f.filename ≡ some (file_bytes f)
      → Files.fetch lib f.filename h ≡ ok (some f, h)
  unfolding Files.fetch
  fetch-file f h db w e found =
      let (k, ek, pk) = buffer_of-Holds f.filename w.short_name in
      let (r, er, pr) =
        db_get-run lib filenames f.filename (file_bytes f) k h db pk (omega arith) e found in
      rw (ek, er, from_stream-file_bytes f r w.version_fits w.id_fits pr.valid pr.unread_bytes) refl

  -- All file records are shown, or their names, in the order of the cursor, and a file that is shown is
  -- found by its name, unless another record under that name stands in front of it. No call of the cursor
  -- fails and the names are C strings.
  pub display_all-find_by_id :
      (atoi : List ℕ → ℕ) (ids : Bool) (files : List DbFile) (h : Handles lib) (db : lib.Db)
      (c : curs.Cursor)
      → h filenames ≡ some db
      → curs.cursor db ≡ some c
      → AllStorable files
      → Walk curs.c_get curs.c_close c (stored_files files)
      → (display_all lib curs ids filenames (suc (length files)) h ≡ ok (shown_files ids files, h))
        × ((f : DbFile)
            → IsStorable f
            → record_of (stored_files files) f.filename ≡ some (file_bytes f)
            → find_by_id lib atoi filenames f.filename h ≡ ok (file f, h))
  unfolding display_all find_by_id display
  display_all-find_by_id atoi ids files h db c e begun a walk = (
    rw (display_all, ptr-run lib filenames h db e, begun, display_loop-files ids files c a walk)
        refl,
    λ f w found.
        rw
          (fetch-file f h db w e
            (sym (curs.walk_records db c (stored_files files) f.filename begun walk) ∙ found))
          refl,
  )
