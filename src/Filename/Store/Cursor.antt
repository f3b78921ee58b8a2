-- ===== src/Filename/Store/Cursor.antt =====
-- The cursor over the file records, version-1/filename.c.
use cryptar.Prelude.{
  ℕ, Option, none, some, List, ◌==◌, if◌then◌else◌, Result, ok, fault, assertion_failed,
  out_of_bounds, and_then, ◌>>=◌,
}
use cryptar.Ios
use cryptar.Ios.{IosBuf, Stream}
use cryptar.Database.{filenames, BerkeleyDb, Store}
use cryptar.Database.Cursors
use cryptar.Database.Cursors.{CursorLib}
use cryptar.Filename
use cryptar.Filename.{DbFile}

-- The name that the key has.
unfoldable pub key_name : ℕ → Stream (Option (List ℕ))
key_name len = do p ← Ios.read len; Ios.strndup p len

-- The name of a record without one is not initialised.
unfoldable pub named_record : Option (List ℕ) → IosBuf → Result (Option DbFile)
named_record none value = fault out_of_bounds
named_record (some name) value = Ios.parsed (Filename.from_stream name) value

module _ (lib : BerkeleyDb) (curs : CursorLib lib) where
  unfoldable pub curs_begin : Store lib curs.Cursor
  curs_begin = Cursors.curs_begin lib curs filenames

  unfoldable pub curs_next : curs.Cursor → Result (Option (DbFile × curs.Cursor))
  curs_next c = and_then (Cursors.curs_next lib curs c Ios.new Ios.new) λ found. elim found [
    | none ↦ ok none
    | some (key, value, c') ↦
        if Ios.buffer_size key == 0
        then fault assertion_failed
        else and_then (Ios.parsed (key_name (Ios.buffer_size key)) key) λ name.
          and_then (named_record name value)
            λ dbf. elim dbf [ none ↦ ok none | some f ↦ ok (some (f, c')) ]
  ]

  unfoldable pub curs_end : curs.Cursor → Result (Unit {0})
  curs_end c = Cursors.curs_end lib curs c
