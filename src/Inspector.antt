-- ===== src/Inspector.antt =====
-- version-1/cryptar-db.c: the program that shows what is in a database.
--
-- `getopt_long` is not modelled: its results are a list of `Flag`, followed by the arguments that are left; a
-- flag has the first character of its argument. What is shown is a list of the records; how they are
-- printed is left out. `atoi` is an argument.

pub mod Walking
pub mod Missing
use cryptar.Prelude.{
  ℕ, zero, suc, Bool, true, false, not, ◌||◌, ◌&&◌, ◌++◌, Option, none, some, List, [], ◌∷◌, ◌==◌,
  ltb, if◌then◌else◌, length, Result, ok, fault, assertion_failed, null_dereference, out_of_fuel,
  exited, and_then, State, pure, stop, lift, ◌>>=◌, ◌>>◌,
}
use cryptar.Ios
use cryptar.Ios.{IosBuf, before_nul}
use cryptar.Database
use cryptar.Database.{
  Database, filenames, summary, blocks, archive, constants, server_constants, keys, BerkeleyDb,
  Store,
}
use cryptar.Database.Opening.{db_open}
use cryptar.Database.Cursors.{CursorLib, get_error, not_found, record_at}
use cryptar.Filename
use cryptar.Filename.{DbFile}
use cryptar.Filename.Store as Files
use cryptar.Summary
use cryptar.Summary.{DbSummary}
use cryptar.Summary.Store as Summaries
use cryptar.Block
use cryptar.Block.{DbBlock}
use cryptar.Block.Store as Blocks
use cryptar.Remote
use cryptar.Remote.{DbArchive}

pub data Action : Type 0 where
  find_by_id_action show_all_ids show_all : Action

pub data Flag : Type 0 where
  database_flag action_flag : ℕ → Flag
  help_flag missing_argument unknown_flag unexpected_flag : Flag

-- The static variables, the option for a server, and the local variables of `parse_cdb_options`.
pub record Choice : Type 0 where
  pub the_database : Option Database
  pub the_action : Option Action
  pub server : Bool
  pub archive_target : Option (List ℕ)
  pub the_key : Option (List ℕ)
  pub no_archive : Bool
  pub ret : ℕ

abbrev pub init : Choice
init = record {
  the_database = none;
  the_action = none;
  server = false;
  archive_target = none;
  the_key = none;
  no_archive = false;
  ret = 0;
}

abbrev pub set_database : Database → Choice → Choice
set_database d c = record c { the_database = some d }

-- The letters f, s, b, a, c, e and k.
unfoldable pub choose_database : ℕ → Choice → Choice
choose_database letter c =
    if letter == 102
    then set_database filenames c
    else if letter == 115
    then set_database summary c
    else if letter == 98
    then set_database blocks c
    else if letter == 97
    then record (set_database archive c) { server = true }
    else if letter == 99
    then set_database constants c
    else if letter == 101
    then record (set_database server_constants c) { server = true }
    else if letter == 107
    then set_database keys c
    else record c { ret = 1 }

-- The letters f, l and s.
unfoldable pub choose_action : ℕ → Choice → Choice
choose_action letter c =
    if letter == 102
    then record c { the_action = some find_by_id_action }
    else if letter == 108
    then record c { the_action = some show_all_ids }
    else if letter == 115
    then record c { the_action = some show_all }
    else record c { ret = 1 }

unfoldable pub set_flag : Flag → Choice → Choice
set_flag (database_flag letter) c = choose_database letter c
set_flag (action_flag letter) c = choose_action letter c
set_flag help_flag c = record c { no_archive = true; ret = 1 }
set_flag missing_argument c = record c { ret = 1 }
set_flag unknown_flag c = record c { ret = 1 }
set_flag unexpected_flag c = record c { ret = 1 }

unfoldable pub set_flags : List Flag → Choice → Choice
set_flags [] c = c
set_flags (flag ∷ flags) c = set_flags flags (set_flag flag c)

abbrev pub is_find : Option Action → Bool
is_find (some find_by_id_action) = true
is_find _ = false

-- The tests on the number of arguments.
unfoldable pub count_args : ℕ → Choice → Choice
count_args n c =
    if (not c.no_archive && ltb n 1) || (is_find c.the_action && ltb n 2)
    then record c { ret = 1 }
    else c

-- The archive and the key.
unfoldable pub set_args : List (List ℕ) → Choice → Choice
set_args [] c = c
set_args (target ∷ []) c = record c { archive_target = some target }
set_args (target ∷ key ∷ args) c = record c { archive_target = some target; the_key = some key }

unfoldable pub parse_cdb_options : List Flag → (args : List (List ℕ)) → Choice
parse_cdb_options flags args = set_args args (count_args (length args) (set_flags flags init))

-- A record that is shown, a key that is listed, or the complaint about the database.
pub data Shown : Type 0 where
  file : DbFile → Shown
  a_summary : DbSummary → Shown
  block : DbBlock → Shown
  archived : DbArchive → Shown
  name : List ℕ → Shown
  id : ℕ → Shown
  unexpected_case : Shown

-- A display function, which asserts that there is an object.
unfoldable pub display : {A : Type 0} → (A → Shown) → Option A → Result Shown
display shown none = fault assertion_failed
display shown (some a) = ok (shown a)

module _ (lib : BerkeleyDb) (atoi : List ℕ → ℕ) where
  -- The fetch function and the display function of a database; some databases have none.
  unfoldable pub find_by_id : Database → (the_key : List ℕ) → Store lib Shown
  find_by_id filenames the_key = do dbf ← Files.fetch lib the_key; lift (display file dbf)
  find_by_id summary the_key = do
    dbs ← Summaries.fetch lib (atoi the_key)
    lift (display a_summary dbs)
  find_by_id blocks the_key = do dbb ← Blocks.fetch lib (atoi the_key); lift (display block dbb)
  find_by_id archive the_key = do a ← Remote.fetch lib (atoi the_key); lift (display archived a)
  find_by_id constants the_key = stop null_dereference
  find_by_id server_constants the_key = stop null_dereference
  find_by_id keys the_key = stop null_dereference

-- `db_get_key_int`.
unfoldable pub db_get_key_int : List ℕ → Result ℕ
db_get_key_int key = and_then (Ios.buffer_of key) λ ios. Ios.parsed Ios.read_int32 ios

-- What is listed of a key.
unfoldable pub show_id : Database → (key : List ℕ) → Result Shown
show_id filenames key = ok (name (before_nul key))
show_id _ key = and_then (db_get_key_int key) λ n. ok (id n)

-- What is shown of a record whose data is in a buffer; nothing of a key.
unfoldable pub show_record : Database → (key : List ℕ) → IosBuf → Result (List Shown)
show_record filenames key ios =
    and_then (Ios.parsed (Filename.from_stream (before_nul key)) ios)
      λ dbf. and_then (display file dbf) λ s. ok (s ∷ [])
show_record summary key ios =
    and_then (db_get_key_int key)
      λ n. and_then (Ios.parsed (Summary.from_stream n) ios) λ dbs. ok (a_summary dbs ∷ [])
show_record blocks key ios = and_then (db_get_key_int key) λ n.
    and_then (Ios.parsed (Block.from_stream n) ios)
      λ dbb. and_then (display block dbb) λ s. ok (s ∷ [])
show_record archive key ios = and_then (db_get_key_int key) λ n.
    and_then (Ios.parsed (Remote.from_stream n) ios)
      λ a. and_then (display archived a) λ s. ok (s ∷ [])
show_record keys key ios = ok []
show_record _ key ios = ok (unexpected_case ∷ [])

-- The body of the loop; `ids` is the action kShow_All_IDs.
unfoldable pub show_one : (ids : Bool) → Database → (key value : List ℕ) → Result (List Shown)
show_one ids d key value =
    and_then (Ios.buffer_of value)
      λ ios. if ids then (and_then (show_id d key) λ s. ok (s ∷ [])) else show_record d key ios

module _ (lib : BerkeleyDb) (curs : CursorLib lib) where
  open curs use {Cursor, cursor, c_get, c_close}

  -- The loop over the cursor, on fuel.
  unfoldable pub display_loop : (ids : Bool) → Database → ℕ → Cursor → Result (List Shown)
  display_loop ids d zero c = fault out_of_fuel
  display_loop ids d (suc fuel) c = elim (c_get c) [
    | get_error ↦ fault exited
    | not_found ↦ if c_close c then ok [] else fault exited
    | record_at key value c' ↦
        and_then (show_one ids d key value)
          λ shown. and_then (display_loop ids d fuel c') λ rest. ok (shown ++ rest)
  ]

  unfoldable pub display_all : (ids : Bool) → Database → ℕ → Store lib (List Shown)
  display_all ids d fuel = do
    dbp ← Database.ptr lib d
    elim (cursor dbp) [ none ↦ stop exited | some c ↦ lift (display_loop ids d fuel c) ]

  -- `main`: nothing is shown where it returns 1.
  unfoldable pub main :
      (atoi : List ℕ → ℕ) (open_db : Database → Option lib.Db) (fuel : ℕ)
      → Choice
      → Store lib (Option (List Shown))
  main atoi open_db fuel c = if not (c.ret == 0) then pure none else elim c.the_database [
    | none ↦ pure none
    | some d ↦ elim c.the_action [
      | none ↦ pure none
      | some find_by_id_action ↦ do
        db_open lib open_db d
        shown ← elim c.the_key [
          | none ↦ stop null_dereference
          | some key ↦ find_by_id lib atoi d key
        ]
        pure (some (shown ∷ []))
      | some show_all_ids ↦ do
        db_open lib open_db d
        shown ← display_all true d fuel
        pure (some shown)
      | some show_all ↦ do
        db_open lib open_db d
        shown ← display_all false d fuel
        pure (some shown)
    ]
  ]
