-- ===== src/Database/Cursors.antt =====
-- The cursors of version-1/db_misc.c, which walk over a database.
--
-- A cursor of Berkeley DB and its two operations are a parameter, of which is known what a walk to its end
-- has given.
use cryptar.Prelude.{
  ℕ, Bool, true, ◌≡◌, Option, none, some, List, [], ◌∷◌, same_bytes, if◌then◌else◌, Result, ok,
  fault, exited, and_then, pure, stop, ◌>>=◌,
}
use cryptar.Ios
use cryptar.Ios.{IosBuf}
use cryptar.Database
use cryptar.Database.{Database, BerkeleyDb, Store}

abbrev pub Records : Type 0
Records = List (List ℕ × List ℕ)

-- What `c_get` gives with DB_NEXT: an error, DB_NOTFOUND, or a key with its data.
pub data Got (Cursor : Type 0) : Type 0 where
  get_error not_found : Got Cursor
  record_at : (key value : List ℕ) → Cursor → Got Cursor

-- The calls from a cursor to its end, which all succeed and give these records.
abbrev pub Walk :
    {Cursor : Type 0} → (Cursor → Got Cursor) → (Cursor → Bool) → Cursor → Records → Type 0
Walk c_get c_close c [] = (c_get c ≡ not_found) × (c_close c ≡ true)
Walk {Cursor} c_get c_close c ((key, value) ∷ rest) =
    (c' : Cursor) × (c_get c ≡ record_at key value c') × Walk c_get c_close c' rest

-- The first record under a key.
abbrev pub record_of : Records → List ℕ → Option (List ℕ)
record_of [] j = none
record_of ((key, value) ∷ rest) j = if same_bytes key j then some value else record_of rest j

pub record CursorLib (lib : BerkeleyDb) : Type 1 where
  pub Cursor : Type 0
  pub cursor : lib.Db → Option Cursor
  pub c_get : Cursor → Got Cursor
  pub c_close : Cursor → Bool
  pub walk_records :
      (db : lib.Db) (c : Cursor) (rs : Records) (key : List ℕ)
      → cursor db ≡ some c
      → Walk c_get c_close c rs
      → record_of rs key ≡ lib.lookup db key

module _ (lib : BerkeleyDb) (curs : CursorLib lib) where
  open curs use {Cursor, cursor, c_get, c_close}

  unfoldable pub curs_begin : Database → Store lib Cursor
  curs_begin db = do
    dbp ← Database.ptr lib db
    elim (cursor dbp) [ none ↦ stop exited | some c ↦ pure c ]

  unfoldable pub curs_end : Cursor → Result (Unit {0})
  curs_end c = if c_close c then ok tt else fault exited

  -- The key, the data and the cursor behind them; `none` at the end, where the cursor is closed.
  unfoldable pub curs_next :
      Cursor → (ios_key ios_data : IosBuf) → Result (Option (IosBuf × IosBuf × Cursor))
  curs_next c ios_key ios_data = elim (c_get c) [
    | get_error ↦ fault exited
    | not_found ↦ and_then (curs_end c) λ _. ok none
    | record_at key value c' ↦
        and_then (Ios.set_buffer key ios_key)
          λ (_, k). and_then (Ios.set_buffer value ios_data) λ (_, d). ok (some (k, d, c'))
  ]
