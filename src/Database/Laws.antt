-- ===== src/Database/Laws.antt =====
-- `db_get_next_index` of version-1/db_misc.c.
use cryptar.Prelude.{
  ℕ, ◌+◌, ◌%◌, ◌^◌, ◌<◌, ◌≡◌, ◌≢◌, ◌⊎◌, inl, inr, refl, ap, ◌∙◌, Bool, none, some, List, ok, fault,
  exited, arith, if◌then◌else◌, same_bytes_self, be32, ne→not_==, eq→==,
}
use cryptar.Ios.Fields.{word32-Parses}
use cryptar.Ios.Buffers.{buffer_of-Holds, parsed-Holds}
use cryptar.Database.{
  Database, server_constants, constants, index_of, BerkeleyDb, Handles, set_handle, ptr, put_bytes,
  get_bytes, last_index, get_next_index,
}

-- The database of the counters.
abbrev pub counters : Bool → Database
counters server = if server then server_constants else constants

module _ (lib : BerkeleyDb) where
  last_index-be32 : (n : ℕ) → 0 < n → n < 2 ^ 32 → last_index lib (some (be32 n)) ≡ ok n
  unfolding last_index
  last_index-be32 n pos small =
      let (r, e, h) = buffer_of-Holds (be32 n) (omega arith) in
      rw (e, parsed-Holds (word32-Parses n small) h, ne→not_== n 0 (omega arith))

  -- The counter of `d` stands at `n`: no record, or the bytes of `n`.
  abbrev pub Counter : lib.Db → Database → ℕ → Type 0
  Counter db d n =
      ((lib.lookup db (be32 (index_of d)) ≡ none) × (n ≡ 0))
      ⊎ ((lib.lookup db (be32 (index_of d)) ≡ some (be32 n)) × (0 < n))

  last_index-Counter :
      (db : lib.Db) (d : Database) (n : ℕ)
      → n < 2 ^ 32
      → Counter db d n
      → last_index lib (lib.lookup db (be32 (index_of d))) ≡ ok n
  last_index-Counter db d n small (inl (missing, zeroed)) =
      rw missing (rw zeroed (unfold last_index in refl))
  last_index-Counter db d n small (inr (found, pos)) = rw found (last_index-be32 n pos small)

  pub ptr-run :
      (d : Database) (h : Handles lib) (db : lib.Db) → h d ≡ some db → ptr lib d h ≡ ok (db, h)
  unfolding ptr
  ptr-run d h db e = rw (e, ptr)

  pub get_bytes-run :
      (d : Database) (key : List ℕ) (h : Handles lib) (db : lib.Db)
      → h d ≡ some db
      → get_bytes lib d key h ≡ ok (lib.lookup db key, h)
  unfolding get_bytes
  get_bytes-run d key h db e = rw (ptr-run d h db e)

  pub put_bytes-run :
      (d : Database) (key value : List ℕ) (h : Handles lib) (db db' : lib.Db)
      → h d ≡ some db
      → lib.store db key value ≡ some db'
      → put_bytes lib d key value h ≡ ok (tt, set_handle lib h d (some db'))
  unfolding put_bytes
  put_bytes-run d key value h db db' e stored = rw (ptr-run d h db e) (ground (arith, stored))

  pub put_bytes-exits :
      (d : Database) (key value : List ℕ) (h : Handles lib) (db : lib.Db)
      → h d ≡ some db
      → lib.store db key value ≡ none
      → put_bytes lib d key value h ≡ fault exited
  unfolding put_bytes
  put_bytes-exits d key value h db e fails = rw (ptr-run d h db e) (ground (arith, fails))

  pub get_next_index-run :
      (server : Bool) (d : Database) (n : ℕ) (h : Handles lib) (db db' : lib.Db)
      → n + 1 < 2 ^ 32
      → h (counters server) ≡ some db
      → Counter db d n
      → lib.store db (be32 (index_of d)) (be32 (n + 1)) ≡ some db'
      → get_next_index lib server d h ≡ ok (n + 1, set_handle lib h (counters server) (some db'))
  unfolding get_next_index
  get_next_index-run server d n h db db' small e c stored =
      let next : (n + 1) % 2 ^ 32 ≡ n + 1 = omega arith in
      rw (
        get_bytes-run (counters server) (be32 (index_of d)) h db e,
        last_index-Counter db d n (omega arith) c,
        next,
        put_bytes-run (counters server) (be32 (index_of d)) (be32 (n + 1)) h db db' e stored,
      )

  Counter-store :
      (d : Database) (n : ℕ) (db db' : lib.Db)
      → 0 < n
      → lib.store db (be32 (index_of d)) (be32 n) ≡ some db'
      → Counter db' d n
  Counter-store d n db db' pos stored = inr (
    lib.lookup-store db (be32 (index_of d)) (be32 n) db' (be32 (index_of d)) stored
        ∙ ap (λ b. if b then some (be32 n) else lib.lookup db (be32 (index_of d)))
            (same_bytes_self (be32 (index_of d))),
    pos,
  )

  -- If the counter is at least two below its limit and both writes succeed, two calls of
  -- `db_get_next_index` return the next two indices and leave every other database as it was.
  pub get_next_index_twice :
      (server : Bool) (d : Database) (n : ℕ) (h : Handles lib) (db db' db'' : lib.Db)
      → n + 2 < 2 ^ 32
      → h (counters server) ≡ some db
      → Counter db d n
      → lib.store db (be32 (index_of d)) (be32 (n + 1)) ≡ some db'
      → lib.store db' (be32 (index_of d)) (be32 (n + 2)) ≡ some db''
      → (h' h'' : Handles lib) × (get_next_index lib server d h ≡ ok (n + 1, h'))
        × (get_next_index lib server d h' ≡ ok (n + 2, h''))
        × ((e : Database) → index_of e ≢ index_of (counters server) → h'' e ≡ h e)
  get_next_index_twice server d n h db db' db'' small e c stored stored' =
      let h' : Handles lib = set_handle lib h (counters server) (some db') in
      let same : h' (counters server) ≡ some db' =
        ap (λ b. if b then some db' else h (counters server))
          (eq→== (index_of (counters server)) (index_of (counters server)) refl) in
      let two : n + 1 + 1 ≡ n + 2 = omega arith in
      (
        h',
        set_handle lib h' (counters server) (some db''),
        get_next_index-run server d n h db db' (omega arith) e c stored,
        get_next_index-run server d (n + 1) h' db' db'' (omega arith) same
              (Counter-store d (n + 1) db db' (omega arith) stored)
              (ap (λ k. lib.store db' (be32 (index_of d)) (be32 k)) two ∙ stored')
            ∙ ap (λ k. ok (k, set_handle lib h' (counters server) (some db''))) two,
        λ e' ne. rw (ne→not_== (index_of e') (index_of (counters server)) ne),
      )
