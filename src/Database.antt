-- ===== src/Database.antt =====
-- version-1/db_misc.h and version-1/db_misc.c: the databases of a client or a server.
--
-- Berkeley DB is a parameter. A non-zero return of one of its functions, after which the program
-- exits, is `none`; that nothing is stored under a key is no error.
pub mod Cursors
pub mod Laws
pub mod Opening
pub mod RoundTrip
use cryptar.Prelude.{
  ℕ, ◌+◌, ◌%◌, ◌^◌, ◌≡◌, Bool, true, false, Option, none, some, List, [], ◌==◌, if◌then◌else◌,
  same_bytes, not, Result, fault, ok, and_then, assertion_failed, exited, State, pure, stop, get,
  put, lift, assert, ◌>>=◌, ◌>>◌, be32,
}
use cryptar.Ios
use cryptar.Ios.{IosBuf}

pub data Database : Type 0 where
  filenames summary blocks archive constants server_constants keys : Database

-- The value of the C enumeration.
abbrev pub index_of : Database → ℕ
index_of filenames = 0
index_of summary = 1
index_of blocks = 2
index_of archive = 3
index_of constants = 4
index_of server_constants = 5
index_of keys = 6

pub record BerkeleyDb : Type 1 where
  pub Db : Type 0
  pub lookup : Db → List ℕ → Option (List ℕ)
  pub store : Db → List ℕ → List ℕ → Option Db
  pub remove : Db → List ℕ → Option Db
  pub lookup-store :
      (db : Db) (key value : List ℕ) (db' : Db) (j : List ℕ)
      → store db key value ≡ some db'
      → lookup db' j ≡ (if same_bytes key j then some value else lookup db j)

module _ (lib : BerkeleyDb) where
  open lib use {Db, lookup, store, remove}

  -- `database_ptrs`: `none` is NULL.
  abbrev pub Handles : Type 0
  Handles = Database → Option Db

  abbrev pub Store : Type 0 → Type 0
  Store A = State Handles A

  abbrev pub set_handle : Handles → Database → Option Db → Handles
  set_handle h d p e = if index_of e == index_of d then p else h e

  unfoldable pub ptr : Database → Store Db
  ptr d h = elim (h d) [ none ↦ fault assertion_failed | some dbp ↦ ok (dbp, h) ]

  -- `dbp->put` on a handle.
  unfoldable pub put_bytes : Database → (key value : List ℕ) → Store (Unit {0})
  put_bytes d key value = do
    dbp ← ptr d
    h ← get
    elim (store dbp key value) [ none ↦ stop exited | some dbp' ↦ put (set_handle h d (some dbp')) ]

  -- `dbp->get`; `none` is DB_NOTFOUND.
  unfoldable pub get_bytes : Database → List ℕ → Store (Option (List ℕ))
  get_bytes d key = do dbp ← ptr d; pure (lookup dbp key)

  unfoldable pub db_put : Database → (key_in data_in : IosBuf) → Store (Unit {0})
  db_put d key_in data_in = put_bytes d (Ios.unread key_in) (Ios.unread data_in)

  -- The buffer `data_out` afterwards.
  unfoldable pub db_get : Database → (key_in data_out : IosBuf) → Store IosBuf
  db_get d key_in data_out = do
    found ← get_bytes d (Ios.unread key_in)
    elim found [
      | none ↦ pure (Ios.reset data_out)
      | some bytes ↦ do (_, ios) ← lift (Ios.set_buffer bytes data_out); pure ios
    ]

  -- An error is only warned of.
  unfoldable pub db_delete : Database → IosBuf → Store (Unit {0})
  db_delete d key_in = do
    dbp ← ptr d
    h ← get
    elim (remove dbp (Ios.unread key_in)) [
      | none ↦ pure tt
      | some dbp' ↦ put (set_handle h d (some dbp'))
    ]

  -- The last index handed out, zero if none is stored.
  unfoldable pub last_index : Option (List ℕ) → Result ℕ
  last_index none = ok 0
  last_index (some bytes) = and_then (Ios.buffer_of bytes) λ ios.
      and_then (Ios.parsed Ios.read_int32 ios) λ n. if n == 0 then fault assertion_failed else ok n

  -- `server` is `int_option(kOption_server)`.
  unfoldable pub get_next_index : Bool → Database → Store ℕ
  get_next_index server d = do
    let counters = if server then server_constants else constants
    found ← get_bytes counters (be32 (index_of d))
    last ← lift (last_index found)
    let index = (last + 1) % 2 ^ 32
    put_bytes counters (be32 (index_of d)) (be32 index)
    pure index
