-- ===== src/Hash.antt =====
-- version-1/hash.c: the one static hash table, from weak checksums to file offsets.
--
-- The array of 2 ^ 16 buckets is a function from an index to a list; `none` is the NULL pointer.
-- GATHER_HASH_STATISTICS is on, as the file defines it, and EXPENSIVE_CHECK is off.
pub mod Laws
use cryptar.Prelude.{
  ℕ, ◌+◌, ◌%◌, ◌^◌, Bool, true, false, Option, none, some, List, [], ◌∷◌, ◌++◌, ◌==◌, if◌then◌else◌,
  ok, fault, null_dereference, State, pure, stop, get, put, assert, ◌>>=◌, ◌>>◌,
}

pub record HashEntry : Type 0 where
  pub key : ℕ
  pub value : ℕ

abbrev pub HashBucket : Type 0
HashBucket = List HashEntry

abbrev pub Table : Type 0
Table = ℕ → HashBucket

-- The static variables of the file. `entry_pool` tells whether the pool exists.
pub record HashState : Type 0 where
  pub hash_table : Option Table
  pub entry_pool : Bool
  pub hash_entries : ℕ
  pub hash_collisions : ℕ

abbrev pub initial : HashState
initial = record { hash_table = none; entry_pool = false; hash_entries = 0; hash_collisions = 0 }

abbrev pub Hash : Type 0 → Type 0
Hash A = State HashState A

abbrev is_some {ℓ} : {A : Type ℓ} → Option A → Bool
is_some none = false
is_some (some _) = true

-- Frees the buckets and destroys the pool that their entries stand in.
clear : Hash (Unit {0})
clear = do
  h ← get
  assert (is_some h.hash_table)
  assert h.entry_pool
  put (record h { entry_pool = false })

unfoldable pub destroy : Hash (Unit {0})
unfolding clear
destroy = do
  h ← get
  elim h.hash_table [
    | none ↦ pure tt
    | some _ ↦ do clear; cleared ← get; put (record cleared { hash_table = none })
  ]

unfoldable pub create : Hash (Unit {0})
unfolding destroy
create = do
  before ← get
  put (record before { entry_pool = true })
  if is_some before.hash_table then destroy else pure tt
  h ← get
  put (record h { hash_table = some (λ _. []); hash_entries = 0; hash_collisions = 0 })

-- `g_slist_find_custom` with `hash_find_comparator`: the first entry with the key.
unfoldable pub find_entry : ℕ → HashBucket → Option ℕ
find_entry key [] = none
find_entry key (entry ∷ entries) =
    if entry.key == key then some entry.value else find_entry key entries

-- `some value` is a non-zero return with `*value` set.
unfoldable pub find : ℕ → Hash (Option ℕ)
find key h = elim h.hash_table [
  | none ↦ fault null_dereference
  | some table ↦ let hash_index = key % 2 ^ 16 in ok (find_entry hash_index (table hash_index), h)
]

abbrev is_empty : HashBucket → Bool
is_empty [] = true
is_empty (_ ∷ _) = false

abbrev pub update_bucket : Table → ℕ → HashBucket → Table
update_bucket table i bucket j = if j == i then bucket else table j

-- The allocation of an entry from a pool that does not exist gives NULL, which the assertion stops.
unfoldable pub insert : ℕ → ℕ → Hash (Unit {0})
insert key value h = elim h.hash_table [
  | none ↦ fault null_dereference
  | some table ↦
      (let hash_index = key % 2 ^ 16 in
          let this_bucket = table hash_index in
          do
            assert h.entry_pool
            put (record h {
              hash_table = some (
                  update_bucket table hash_index
                    (this_bucket ++ (record { key = hash_index; value = value } ∷ [])));
              hash_entries = (h.hash_entries + 1) % 2 ^ 32;
              hash_collisions =
                  if is_empty this_bucket
                  then h.hash_collisions
                  else (h.hash_collisions + 1) % 2 ^ 32;
            }))
        h
]
