-- ===== src/Main/Contact.antt =====
-- `do_create` of version-1/prefs.c and then `do_server_init` of version-1/main.c: the first contact with a server.
use cryptar.Prelude.{
  ℕ, ◌^◌, ◌≤◌, ◌≡◌, ◌≢◌, refl, sym, ap, ◌∙◌, subst, arith, true, false, same_bytes, same_bytes_self,
  if◌then◌else◌, Option, Option-cases, inl, inr, none, some, List, length, ok, fault, out_of_bounds,
  Result, lift, pure, run_next-ok, ok-inj, lift-Keeps, ◌>>=◌,
}
use mathlib.Core.Option.{some-injective}
use cryptar.Ios
use cryptar.Ios.Buffers.{buffer_of-Holds, unread-Holds}
use cryptar.Constants
use cryptar.Constants.Missing.{get_int-missing}
use cryptar.Database.{
  Database, filenames, summary, blocks, constants, BerkeleyDb, Handles, set_handle, put_bytes,
  db_put,
}
use cryptar.Database.Laws.{put_bytes-run, put_bytes-exits}
use cryptar.Database.Opening.{db_open, db_open_client_dbs, pref_archive_id, pref_archive_pass}
use cryptar.Database.RoundTrip.{lookup-missing, set_handle-same}
use cryptar.Ios.{IosBuf}
use cryptar.Main.{do_server_init}
use cryptar.Process.{Env, Process, Proc}
use cryptar.Preferences.{
  Answers, agrees, store_answers, do_create, pref_daemon_command, pref_to_archive,
  pref_block_length, pref_must_create,
}

-- Texts that the test tells apart.
differs : (a b : List ℕ) → same_bytes a b ≡ false → a ≢ b
differs a b d e = absurd (let x = sym (same_bytes_self a) ∙ ap (same_bytes a) e ∙ d in cc)

module _ (lib : BerkeleyDb) where
  -- The database of the constants is open and has no archive id.
  pub record LacksId (h : Handles lib) : Type 0 where
    pub db : lib.Db
    pub opened : h constants ≡ some db
    pub missing : lib.lookup db pref_archive_id ≡ none

  put_bytes-LacksId :
      (key value : List ℕ) (h h' : Handles lib)
      → key ≢ pref_archive_id
      → LacksId h
      → put_bytes lib constants key value h ≡ ok (tt, h')
      → LacksId h'
  put_bytes-LacksId key value h h' ne l e = elim (Option-cases (lib.store l.db key value)) [
    | inl fails ↦
        absurd
          (let x = sym (put_bytes-exits lib constants key value h l.db l.opened fails) ∙ e in cc)
    | inr (db', stored) ↦
        subst LacksId
          (ok-inj (sym (put_bytes-run lib constants key value h l.db db' l.opened stored) ∙ e)).1
          (record {
            db = db';
            opened = set_handle-same lib h constants (some db');
            missing = lookup-missing lib l.db db' key value pref_archive_id stored ne l.missing;
          })
  ]

  db_put-LacksId :
      (key : List ℕ) (r : Result IosBuf) (h h' : Handles lib)
      → length key ≤ 2 ^ 30
      → key ≢ pref_archive_id
      → LacksId h
      → (lift (Ios.buffer_of key) >>= λ k. lift r >>= λ d. db_put lib constants k d) h ≡ ok (tt, h')
      → LacksId h'
  unfolding db_put
  db_put-LacksId key r h h' short ne l e =
      let (k, ek, pk) = buffer_of-Holds key short in
      let (d, s, run, rest) =
        run_next-ok (lift r h) (λ d. db_put lib constants k d)
          (ap (λ b. (lift b >>= λ k. lift r >>= λ d. db_put lib constants k d) h) (sym ek) ∙ e) in
      let same : s ≡ h = (lift-Keeps {f = λ q. q} r).same h run in
      put_bytes-LacksId key (Ios.unread d) h h' ne l (
        ap (λ x. put_bytes lib constants x (Ios.unread d) h) (sym (unread-Holds key pk))
        ∙ ap (put_bytes lib constants (Ios.unread k) (Ios.unread d)) (sym same)
        ∙ rest)

  put_string-LacksId :
      (key val : List ℕ) (h h' : Handles lib)
      → length key ≤ 2 ^ 30
      → key ≢ pref_archive_id
      → LacksId h
      → Constants.put_string lib key val h ≡ ok (tt, h')
      → LacksId h'
  unfolding Constants.put_string
  put_string-LacksId key val h h' short ne l e =
      db_put-LacksId key (Ios.written (Ios.append_string val)) h h' short ne l e

  put_int-LacksId :
      (key : List ℕ) (val : ℕ) (h h' : Handles lib)
      → length key ≤ 2 ^ 30
      → key ≢ pref_archive_id
      → LacksId h
      → Constants.put_int lib key val h ≡ ok (tt, h')
      → LacksId h'
  unfolding Constants.put_int
  put_int-LacksId key val h h' short ne l e =
      db_put-LacksId key (Ios.written (Ios.append_int32 val)) h h' short ne l e

  get_int-LacksId :
      (h : Handles lib) → LacksId h → Constants.get_int lib pref_archive_id h ≡ fault out_of_bounds
  get_int-LacksId h l = get_int-missing lib pref_archive_id h l.db (omega arith) l.opened l.missing

module _ (lib : BerkeleyDb) (open_db : Database → Option lib.Db) (atoi : List ℕ → ℕ) (rand : ℕ)
    (home : List ℕ) where
  db_open-LacksId :
      (h h' : Handles lib) (db : lib.Db)
      → open_db constants ≡ some db
      → lib.lookup db pref_archive_id ≡ none
      → db_open lib open_db constants h ≡ ok (tt, h')
      → LacksId lib h'
  unfolding db_open
  db_open-LacksId h h' db e missing run =
      let opened : db_open lib open_db constants h ≡ ok (tt, set_handle lib h constants (some db)) =
        rw (e, db_open) refl in
      subst (LacksId lib) (ok-inj (sym opened ∙ run)).1
        (record { db = db; opened = set_handle-same lib h constants (some db); missing = missing })

  store_answers-LacksId :
      (a : Answers) (h h' : Handles lib) (db : lib.Db)
      → open_db constants ≡ some db
      → lib.lookup db pref_archive_id ≡ none
      → store_answers lib open_db atoi rand home a h ≡ ok (tt, h')
      → LacksId lib h'
  unfolding store_answers
  store_answers-LacksId a h h' db e missing run =
      let (u0, h0, r0, rest0) = run_next-ok _ _ run in
      let (u1, h1, r1, rest1) = run_next-ok _ _ rest0 in
      let (u2, h2, r2, rest2) = run_next-ok _ _ rest1 in
      let (u3, h3, r3, rest3) = run_next-ok _ _ rest2 in
      let (u4, h4, r4, rest4) = run_next-ok _ _ rest3 in
      let l0 = db_open-LacksId h h0 db e missing r0 in
      let l1 =
        put_string-LacksId lib pref_daemon_command _ h0 h1 (omega arith)
          (differs pref_daemon_command pref_archive_id refl) l0 r1 in
      let l2 =
        put_string-LacksId lib pref_to_archive _ h1 h2 (omega arith)
          (differs pref_to_archive pref_archive_id refl) l1 r2 in
      let l3 =
        put_int-LacksId lib pref_block_length _ h2 h3 (omega arith)
          (differs pref_block_length pref_archive_id refl) l2 r3 in
      let l4 =
        put_int-LacksId lib pref_archive_pass _ h3 h4 (omega arith)
          (differs pref_archive_pass pref_archive_id refl) l3 r4 in
      put_int-LacksId lib pref_must_create 1 h4 h' (omega arith)
        (differs pref_must_create pref_archive_id refl) l4 rest4

module _ (lib : BerkeleyDb) (open_db : Database → Option lib.Db) where
  db_open-run :
      (d : Database) (h : Handles lib) (db : lib.Db)
      → open_db d ≡ some db
      → db_open lib open_db d h ≡ ok (tt, set_handle lib h d (some db))
  unfolding db_open
  db_open-run d h db e = rw (e, db_open) refl

  -- The databases of a client.
  clients : Handles lib → (db1 db2 db3 db4 : lib.Db) → Handles lib
  clients h db1 db2 db3 db4 =
      set_handle lib
        (set_handle lib (set_handle lib (set_handle lib h filenames (some db1)) summary (some db2))
          blocks (some db3))
        constants (some db4)

  db_open_client_dbs-run :
      (h : Handles lib) (db1 db2 db3 db4 : lib.Db)
      → open_db filenames ≡ some db1
      → open_db summary ≡ some db2
      → open_db blocks ≡ some db3
      → open_db constants ≡ some db4
      → db_open_client_dbs lib open_db h ≡ ok (tt, clients h db1 db2 db3 db4)
  unfolding db_open_client_dbs clients
  db_open_client_dbs-run h db1 db2 db3 db4 e1 e2 e3 e4 =
      let h1 : Handles lib = set_handle lib h filenames (some db1) in
      let h2 : Handles lib = set_handle lib h1 summary (some db2) in
      let h3 : Handles lib = set_handle lib h2 blocks (some db3) in
      rw
        (
          db_open-run filenames h db1 e1,
          db_open-run summary h1 db2 e2,
          db_open-run blocks h2 db3 e3,
          db_open-run constants h3 db4 e4,
        )
        refl

-- If an archive is made where the constants have no archive id, and all of its constants are stored, then
-- a client that is started on these constants stops before it has greeted the server: it reads the
-- archive id, which is stored only once the server has answered.
pub do_server_init-do_create :
    (env : Env) (run : Proc env (Unit {0})) (open_db open_db' : Database → Option env.lib.Db)
    (atoi : List ℕ → ℕ) (rand : ℕ) (home : List ℕ) (a : Answers) (h h' : Handles env.lib)
    (p : Process env.lib) (db db1 db2 db3 db4 : env.lib.Db)
    → agrees a.is_ok ≡ true
    → open_db constants ≡ some db
    → env.lib.lookup db pref_archive_id ≡ none
    → do_create env.lib open_db atoi rand home a h ≡ ok (tt, h')
    → open_db' filenames ≡ some db1
    → open_db' summary ≡ some db2
    → open_db' blocks ≡ some db3
    → open_db' constants ≡ some db4
    → h' constants ≡ some db4
    → do_server_init env run open_db' p ≡ fault out_of_bounds
unfolding do_create do_server_init clients
do_server_init-do_create env run open_db open_db' atoi rand home a h h' p db db1 db2 db3 db4 agreed
      e missing made e1 e2 e3 e4 left =
    let stored =
      ap (λ b. (if b then store_answers env.lib open_db atoi rand home a else pure tt) h)
        (sym agreed)
      ∙ made in
    let l = store_answers-LacksId env.lib open_db atoi rand home a h h' db e missing stored in
    let same : l.db ≡ db4 = some-injective l.db db4 (sym l.opened ∙ left) in
    let opened : Handles env.lib = clients env.lib open_db' p.dbs db1 db2 db3 db4 in
    let again : LacksId env.lib opened = record {
      db = db4;
      opened = refl;
      missing = ap (λ d. env.lib.lookup d pref_archive_id) (sym same) ∙ l.missing;
    } in
    rw
      (
        db_open_client_dbs-run env.lib open_db' p.dbs db1 db2 db3 db4 e1 e2 e3 e4,
        get_int-LacksId env.lib opened again,
      )
      refl
