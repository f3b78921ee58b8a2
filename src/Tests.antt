-- ===== src/Tests.antt =====
-- Concrete inputs of the theorems, and small runs of the code.
mod Runs
mod Buffers
mod Packets
mod Covers
mod Stores
mod Ciphers
mod Processes
mod Tickets
mod Files
mod Libraries
mod Transfers
mod Threads
mod Listed
use cryptar.Prelude.{
  arith, ℕ, ◌≡◌, refl, ap, sym, ◌∙◌, Option, none, some, List, [], ◌∷◌, same_bytes, if◌then◌else◌,
}
use cryptar.Block
use cryptar.Block.{DbBlock}
use cryptar.Block.Codec.{IsWellTyped}
use cryptar.Database.{BerkeleyDb, Handles}

-- A database that keeps every record and never fails.
abbrev pub Table : Type 0
Table = List ℕ → Option (List ℕ)

abbrev pub put_in : Table → List ℕ → List ℕ → Table
put_in t key value j = if same_bytes key j then some value else t j

or_same : Table → Option Table → Table
or_same t none = t
or_same t (some t') = t'

pub stored_lem :
    (t : Table) (key value : List ℕ) (t' : Table) (j : List ℕ)
    → Path (Option Table) (some (put_in t key value)) (some t')
    → t' j ≡ (if same_bytes key j then some value else t j)
unfolding or_same
stored_lem t key value t' j e = sym (ap (λ o. or_same t o j) e)

abbrev pub memory : BerkeleyDb
memory = record {
  Db = Table;
  lookup = λ t key. t key;
  store = λ t key value. some (put_in t key value);
  remove = λ t key. some t;
  lookup-store = stored_lem;
}

abbrev pub nothing : Table
nothing key = none

-- All databases are open and empty.
abbrev pub all_open : Handles memory
all_open d = some nothing

abbrev pub block_at : ℕ → DbBlock
block_at offset = record Block.new {
  local_id = 3;
  offset = offset;
  block_length = 4;
  remote_id = 9;
}

pub block_at-IsWellTyped : IsWellTyped (block_at 8)
block_at-IsWellTyped = omega arith
