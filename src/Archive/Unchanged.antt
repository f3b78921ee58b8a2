-- ===== src/Archive/Unchanged.antt =====
-- `archive_file` of version-1/archive.c on a file that has not changed.
use cryptar.Prelude.{
  ℕ, ◌%◌, ◌^◌, ◌≡◌, ◌≢◌, ◌⊎◌, inl, inr, refl, Bool-cases, ok, fault, out_of_bounds, true, false,
  arith, Option, none, some, List, same_bytes_self, eq→==, ◌==◌,
}
use cryptar.Archive.{
  archive_file, identify, open_if_changed, compare_hash, is_changed, pref_always_compare_hash,
}
use cryptar.Constants
use cryptar.Constants.Missing.{get_int-missing}
use cryptar.Database.{constants}
use cryptar.Filename.{DbFile}
use cryptar.Filename.Store as Files
use cryptar.Summary.{DbSummary, Stat}
use cryptar.Summary.Store as Summaries
use cryptar.Process.{Env, Process, Proc}

is_changed-true :
    (sb : Stat) (dbs : DbSummary)
    → is_changed sb dbs false ≡ true
    → (sb.st_size % 2 ^ 32 ≢ dbs.file_length) ⊎ (sb.st_mtime % 2 ^ 32 ≢ dbs.mod_time)
is_changed-true sb dbs t = ground arith

is_changed-false :
    (sb : Stat) (dbs : DbSummary)
    → is_changed sb dbs false ≡ false
    → (sb.st_size % 2 ^ 32 ≡ dbs.file_length) × (sb.st_mtime % 2 ^ 32 ≡ dbs.mod_time)
is_changed-false sb dbs f = ground arith

module _ (env : Env) (cycle : Proc env (Unit {0})) (now : ℕ) where
  open_if_changed-same :
      (sb : Stat) (content : Option (List ℕ)) (dbs : DbSummary) (always : ℕ) (p : Process env.lib)
      → Constants.get_int env.lib pref_always_compare_hash p.dbs ≡ ok (always, p.dbs)
      → ((sb.st_size % 2 ^ 32 ≡ dbs.file_length)
          × (sb.st_mtime % 2 ^ 32 ≡ dbs.mod_time)
          × (always ≡ 0))
        ⊎ ((c : List ℕ) × (content ≡ some c) × (env.sha1 c ≡ dbs.file_sha1))
      → open_if_changed env cycle now sb content dbs false p ≡ ok (none, p)
  unfolding open_if_changed compare_hash
  open_if_changed-same sb content dbs always p pref (inl (size, time, off)) =
      rw
        (
          eq→== (sb.st_size % 2 ^ 32) dbs.file_length size,
          eq→== (sb.st_mtime % 2 ^ 32) dbs.mod_time time,
          pref,
          eq→== always 0 off,
        )
        refl
  open_if_changed-same sb content dbs always p pref (inr (c, bytes, same)) =
      elim (Bool-cases (is_changed sb dbs false)) [
        | inl t ↦ rw (t, bytes, same, same_bytes_self dbs.file_sha1) refl
        | inr f ↦ elim (Bool-cases (always == 0)) [
          | inl off ↦ rw (f, pref, off) refl
          | inr on ↦ rw (f, pref, on, bytes, same, same_bytes_self dbs.file_sha1) refl
        ]
      ]

  open_if_changed-missing :
      (sb : Stat) (content : Option (List ℕ)) (dbs : DbSummary) (p : Process env.lib)
      (db : env.lib.Db)
      → p.dbs constants ≡ some db
      → env.lib.lookup db pref_always_compare_hash ≡ none
      → is_changed sb dbs false ≡ false
      → open_if_changed env cycle now sb content dbs false p ≡ fault out_of_bounds
  unfolding open_if_changed
  open_if_changed-missing sb content dbs p db opened missing f =
      rw (f, get_int-missing env.lib pref_always_compare_hash p.dbs db (omega arith) opened missing)
        refl

  open_if_changed-touched :
      (sb : Stat) (c : List ℕ) (dbs : DbSummary) (p : Process env.lib)
      → env.sha1 c ≡ dbs.file_sha1
      → is_changed sb dbs false ≡ true
      → open_if_changed env cycle now sb (some c) dbs false p ≡ ok (none, p)
  unfolding open_if_changed compare_hash
  open_if_changed-touched sb c dbs p same t = rw (t, same, same_bytes_self dbs.file_sha1) refl

  -- If a file has a record and a summary, its contents can be read and have the hash of the summary, and
  -- the database of the constants is open and does not have the preference to always compare hashes, then
  -- archiving the file leaves the state of the process as it was if its size or its time is not that of
  -- the summary; but if both are as they were, then the program stops, since it reads the preference
  -- without looking at the default.
  pub archive_file-unchanged :
      (name : List ℕ) (sb : Stat) (c : List ℕ) (dbf : DbFile) (dbs : DbSummary)
      (p : Process env.lib) (db : env.lib.Db)
      → Files.fetch env.lib name p.dbs ≡ ok (some dbf, p.dbs)
      → Summaries.fetch_last env.lib dbf.file_id p.dbs ≡ ok (some dbs, p.dbs)
      → env.sha1 c ≡ dbs.file_sha1
      → p.dbs constants ≡ some db
      → env.lib.lookup db pref_always_compare_hash ≡ none
      → (((sb.st_size % 2 ^ 32 ≢ dbs.file_length) ⊎ (sb.st_mtime % 2 ^ 32 ≢ dbs.mod_time))
          × (archive_file env cycle now name sb (some c) p ≡ ok (tt, p)))
        ⊎ ((sb.st_size % 2 ^ 32 ≡ dbs.file_length)
            × (sb.st_mtime % 2 ^ 32 ≡ dbs.mod_time)
            × (archive_file env cycle now name sb (some c) p ≡ fault out_of_bounds))
  unfolding archive_file identify
  archive_file-unchanged name sb c dbf dbs p db found last same opened missing =
      elim (Bool-cases (is_changed sb dbs false)) [
        | inl t ↦ inl (
          is_changed-true sb dbs t,
          rw (found, last, open_if_changed-touched sb c dbs p same t) refl,
        )
        | inr f ↦
            let (size, time) = is_changed-false sb dbs f in
            inr (
              size,
              time,
              rw (found, last, open_if_changed-missing sb (some c) dbs p db opened missing f) refl,
            )
      ]

  -- If the preference is stored, and either size and time are those of the summary and the preference is
  -- off, or the hash is that of the summary, then archiving the file leaves the state as it was.
  pub archive_file-stored :
      (name : List ℕ) (sb : Stat) (content : Option (List ℕ)) (dbf : DbFile) (dbs : DbSummary)
      (always : ℕ) (p : Process env.lib)
      → Files.fetch env.lib name p.dbs ≡ ok (some dbf, p.dbs)
      → Summaries.fetch_last env.lib dbf.file_id p.dbs ≡ ok (some dbs, p.dbs)
      → Constants.get_int env.lib pref_always_compare_hash p.dbs ≡ ok (always, p.dbs)
      → ((sb.st_size % 2 ^ 32 ≡ dbs.file_length)
          × (sb.st_mtime % 2 ^ 32 ≡ dbs.mod_time)
          × (always ≡ 0))
        ⊎ ((c : List ℕ) × (content ≡ some c) × (env.sha1 c ≡ dbs.file_sha1))
      → archive_file env cycle now name sb content p ≡ ok (tt, p)
  unfolding archive_file identify
  archive_file-stored name sb content dbf dbs always p found last pref same =
      rw (found, last, open_if_changed-same sb content dbs always p pref same) refl
