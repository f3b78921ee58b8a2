-- ===== src/Hash/Laws.antt =====
-- Lookups in the table of version-1/hash.c, against the log of what was inserted.
use cryptar.Prelude.{
  ℕ, ◌+◌, ◌%◌, ◌^◌, ◌≡◌, true, false, Option, none, some, List, [], ◌∷◌, ◌++◌, ◌==◌, if◌then◌else◌,
  length, ok, fault, assertion_failed, refl, sym, append-nil, ◌∙◌, ap, arith, length-append,
  append_assoc, ◌>>◌, pure, run_next,
}
use mathlib.Core.Path.{subst}
use cryptar.Hash.{
  HashBucket, Table, HashState, Hash, create, destroy, clear, find, find_entry, insert,
  update_bucket, is_empty,
}

-- The calls of `hash_insert` in order, keys and values.
abbrev pub Log : Type 0
Log = List (ℕ × ℕ)

unfoldable pub insert_all : Log → Hash (Unit {0})
insert_all [] = pure tt
insert_all ((key, value) ∷ log) = do insert key value; insert_all log

-- The value that went in first among those whose key has the low 16 bits of `key`.
unfoldable pub first_value : ℕ → Log → Option ℕ
first_value key [] = none
first_value key ((j, value) ∷ log) =
    if j % 2 ^ 16 == key % 2 ^ 16 then some value else first_value key log

-- A table in use that answers as the log does.
pub record Holds (log : Log) (h : HashState) (table : Table) : Type 0 where
  pub in_use : h.hash_table ≡ some table
  pub pool : h.entry_pool ≡ true
  pub counted : h.hash_entries ≡ length log % 2 ^ 32
  pub answers : (key : ℕ) → find_entry (key % 2 ^ 16) (table (key % 2 ^ 16)) ≡ first_value key log

or_else : Option ℕ → Option ℕ → Option ℕ
or_else none o = o
or_else (some v) o = some v

find_entry-append :
    (k : ℕ) (a b : HashBucket) → find_entry k (a ++ b) ≡ or_else (find_entry k a) (find_entry k b)
unfolding find_entry or_else
find_entry-append k [] b = refl
find_entry-append k (e ∷ a) b = ground (arith, find_entry-append k a b)

first_value-append :
    (k : ℕ) (a b : Log) → first_value k (a ++ b) ≡ or_else (first_value k a) (first_value k b)
unfolding first_value or_else
first_value-append k [] b = refl
first_value-append k ((j, v) ∷ a) b = ground (arith, first_value-append k a b)

-- After `hash_create` on no table, the table is empty.
pub create-Holds :
    (h : HashState)
    → h.hash_table ≡ none
    → (h' : HashState) × (create h ≡ ok (tt, h')) × Holds [] h' (λ _. [])
unfolding create find_entry first_value
create-Holds h none_yet = (
  record { hash_table = some (λ _. []); entry_pool = true; hash_entries = 0; hash_collisions = 0 },
  rw none_yet,
  record { in_use = refl; pool = refl; counted = refl; answers = λ key. refl },
)

abbrev after_insert : Table → ℕ → ℕ → Table
after_insert table key value =
    update_bucket table (key % 2 ^ 16)
      (table (key % 2 ^ 16) ++ (record { key = key % 2 ^ 16; value = value } ∷ []))

insert-Holds :
    {log : Log} {h : HashState} {table : Table} (key value : ℕ)
    → Holds log h table
    → (h' : HashState) × (insert key value h ≡ ok (tt, h'))
      × Holds (log ++ ((key, value) ∷ [])) h' (after_insert table key value)
unfolding insert find_entry first_value or_else
insert-Holds {log} {h} {table} key value p = (
  record {
    hash_table = some (after_insert table key value);
    entry_pool = true;
    hash_entries = (h.hash_entries + 1) % 2 ^ 32;
    hash_collisions =
        if is_empty (table (key % 2 ^ 16))
        then h.hash_collisions
        else (h.hash_collisions + 1) % 2 ^ 32;
  },
  rw (p.in_use, p.pool),
  record {
    in_use = refl;
    pool = refl;
    counted = omega (arith, p.counted, length-append log ((key, value) ∷ []));
    answers = λ j. ground (
      arith,
      p.answers j,
      p.answers key,
      first_value-append j log ((key, value) ∷ []),
      find_entry-append (j % 2 ^ 16) (table (j % 2 ^ 16))
          (record { key = key % 2 ^ 16; value = value } ∷ []),
    );
  },
)

insert_all-Holds :
    (log : Log) {before : Log} {h : HashState} {table : Table}
    → Holds before h table
    → (h' : HashState) × (table' : Table) × (insert_all log h ≡ ok (tt, h'))
      × Holds (before ++ log) h' table'
unfolding insert_all
insert_all-Holds [] {before} {h} {table} p =
    (h, table, refl, subst (λ l. Holds l h table) (sym (append-nil before)) p)
insert_all-Holds ((key, value) ∷ log) {before} p =
    let (h', e, q) = insert-Holds key value p in
    let (h'', table'', e', r) = insert_all-Holds log q in
    (
      h'',
      table'',
      ap (λ x. run_next x (λ _. insert_all log)) e ∙ e',
      subst (λ l. Holds l h'' table'') (append_assoc before ((key, value) ∷ []) log) r,
    )

find-Holds :
    {log : Log} {h : HashState} {table : Table} (key : ℕ)
    → Holds log h table
    → find key h ≡ ok (first_value key log, h)
unfolding find
find-Holds {h} key p = ground (arith, p.in_use, p.answers key)

-- On a table made when there was none, any number of insertions succeeds, and afterwards a lookup
-- gives the first inserted value among the keys that agree with the given one in the low 16 bits;
-- `hash_entries` counts the insertions modulo 2 ^ 32.
pub find-insert_all :
    (h : HashState) (log : Log) (key : ℕ)
    → h.hash_table ≡ none
    → (h' : HashState) × ((create >> insert_all log) h ≡ ok (tt, h'))
      × (find key h' ≡ ok (first_value key log, h'))
      × (h'.hash_entries ≡ length log % 2 ^ 32)
find-insert_all h log key none_yet =
    let (h', e, p) = create-Holds h none_yet in
    let (h'', table, e', q) = insert_all-Holds log p in
    (h'', ap (λ x. run_next x (λ _. insert_all log)) e ∙ e', find-Holds key q, q.counted)

-- After `hash_destroy` of a table in use with its pool, the table can be created again, any number
-- of insertions succeeds, and a lookup gives what the log of these insertions gives.
pub create-destroy :
    (h : HashState) (table : Table) (log : Log) (key : ℕ)
    → h.hash_table ≡ some table
    → h.entry_pool ≡ true
    → (h' : HashState) × ((destroy >> (create >> insert_all log)) h ≡ ok (tt, h'))
      × (find key h' ≡ ok (first_value key log, h'))
unfolding destroy clear
create-destroy h table log key used pool =
    let gone : HashState = record h { hash_table = none; entry_pool = false } in
    let (h', e, f, _) = find-insert_all gone log key refl in (h', rw (used, pool) e, f)

-- `hash_create` over a table in use succeeds and leaves a table in which nothing is found, and in
-- which the first insertion stops at an assertion, whatever is inserted.
pub create-in_use :
    (h : HashState) (table : Table) (key value : ℕ)
    → h.hash_table ≡ some table
    → (h' : HashState) × (create h ≡ ok (tt, h'))
      × (find key h' ≡ ok (none, h'))
      × (insert key value h' ≡ fault assertion_failed)
unfolding create destroy clear insert find find_entry
create-in_use h table key value used = (
  record { hash_table = some (λ _. []); entry_pool = false; hash_entries = 0; hash_collisions = 0 },
  rw used,
  refl,
  refl,
)
