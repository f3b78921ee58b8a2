-- ===== src/Database/RoundTrip.antt =====
-- `db_put` and `db_get` of version-1/db_misc.c on whole records.
use cryptar.Prelude.{
  ℕ, ◌^◌, ◌≤◌, ◌≡◌, refl, ap, ◌∙◌, ◌≢◌, Option, some, none, Bool-cases, inl, inr, same_bytes,
  same_bytes→eq, List, length, ok, same_bytes_self, if◌then◌else◌, eq→==,
}
use cryptar.Ios
use cryptar.Ios.{IosBuf}
use cryptar.Ios.Buffers.{Holds, set_buffer-Holds, unread-Holds}
use cryptar.Database.{Database, index_of, BerkeleyDb, Handles, set_handle, db_put, db_get}
use cryptar.Database.Laws.{get_bytes-run, put_bytes-run}

module _ (lib : BerkeleyDb) where
  pub db_put-run :
      (d : Database) (kb vb : List ℕ) (key_in data_in : IosBuf) (h : Handles lib) (db db' : lib.Db)
      → Holds kb key_in
      → Holds vb data_in
      → h d ≡ some db
      → lib.store db kb vb ≡ some db'
      → db_put lib d key_in data_in h ≡ ok (tt, set_handle lib h d (some db'))
  unfolding db_put
  db_put-run d kb vb key_in data_in h db db' k v e stored =
      rw (unread-Holds kb k, unread-Holds vb v) (put_bytes-run lib d kb vb h db db' e stored)

  pub db_get-run :
      (d : Database) (kb vb : List ℕ) (key_in : IosBuf) (h : Handles lib) (db : lib.Db)
      → Holds kb key_in
      → length vb ≤ 2 ^ 30
      → h d ≡ some db
      → lib.lookup db kb ≡ some vb
      → (r : IosBuf) × (db_get lib d key_in Ios.new h ≡ ok (r, h)) × Holds vb r
  unfolding db_get
  db_get-run d kb vb key_in h db k fits e found =
      let (r, run, holds) = set_buffer-Holds vb fits in
      (r, rw (unread-Holds kb k, get_bytes-run lib d kb h db e, found, run) refl, holds)

  pub lookup-put :
      (db db' : lib.Db) (kb vb : List ℕ)
      → lib.store db kb vb ≡ some db'
      → lib.lookup db' kb ≡ some vb
  lookup-put db db' kb vb stored =
      lib.lookup-store db kb vb db' kb stored
      ∙ ap (λ b. if b then some vb else lib.lookup db kb) (same_bytes_self kb)

  pub set_handle-same :
      (h : Handles lib) (d : Database) (p : Option lib.Db) → set_handle lib h d p d ≡ p
  set_handle-same h d p = ap (λ b. if b then p else h d) (eq→== (index_of d) (index_of d) refl)

  -- Another record that is stored does not make one that is missing.
  pub lookup-missing :
      (db db' : lib.Db) (kb vb j : List ℕ)
      → lib.store db kb vb ≡ some db'
      → kb ≢ j
      → lib.lookup db j ≡ none
      → lib.lookup db' j ≡ none
  lookup-missing db db' kb vb j stored ne missing = elim (Bool-cases (same_bytes kb j)) [
    | inl t ↦ absurd (ne (same_bytes→eq kb j t))
    | inr f ↦
        lib.lookup-store db kb vb db' j stored
        ∙ ap (λ b. if b then some vb else lib.lookup db j) f
        ∙ missing
  ]
