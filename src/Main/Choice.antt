-- ===== src/Main/Choice.antt =====
-- `main`, `start_remote_and_run` and `do_daemon` on the options that `parse_options` accepts.
use cryptar.Prelude.{
  ℕ, ◌+◌, ◌^◌, ◌≤◌, ◌≡◌, ◌≢◌, refl, false, Option, none, some, List, [], ◌∷◌, length, ok, fault,
  assertion_failed, arith, ne→not_==, eq→==, lt→ltb,
}
use cryptar.Constants
use cryptar.Database.{Database, BerkeleyDb, Handles, constants, db_get, get_bytes, ptr}
use cryptar.Ios.Buffers.{buffer_of-Holds, unread-Holds}
use cryptar.Main.{serve, connect, choose, do_daemon, start_remote_and_run}
use cryptar.Options.{Options, Flag, parse_options, confirm_arguments}
use cryptar.Options.Safety.{IsUsable, parse_options-IsUsable, parse_options-no_target}
use cryptar.Preferences.{pref_daemon_command, pref_get_value}
use cryptar.Process.{Env, Process, Proc}

-- A server is chosen only where it is asked for.
serve-server : (o : Options) → choose o ≡ serve → o.server ≢ 0
serve-server o e = ground arith

module _ (env : Env) (run : Proc env (Unit {0})) where
  -- For every command line that `parse_options` accepts and that makes `main` start the server, the
  -- server refuses its arguments and does not run: `flags_consistent` wants the name of an archive, and
  -- `do_daemon` wants none.
  pub do_daemon-parse_options :
      (flags : List Flag) (args : List (List ℕ)) (o : Options) (p : Process env.lib)
      → parse_options flags args ≡ ok (some o)
      → choose o ≡ serve
      → do_daemon env run (length args) p ≡ ok (false, p)
  unfolding do_daemon confirm_arguments
  do_daemon-parse_options flags [] o p e c = absurd (
      (parse_options-IsUsable flags [] o e).target (omega (arith, serve-server o c))
        (parse_options-no_target flags o e))
  do_daemon-parse_options flags (a ∷ args) o p e c =
      rw (ne→not_== (length (a ∷ args)) 0 (omega arith), lt→ltb 0 (length (a ∷ args)) (omega arith))
        refl

-- One of three switches that is on, where one is at most: no fourth is.
connect-usable :
    (o : Options)
    → IsUsable o
    → o.ping + o.extract + o.backup ≢ 0
    → o.self_test ≡ 0
    → o.create ≡ 0
    → o.server ≡ 0
    → choose o ≡ connect
connect-usable o u asked no_test no_create no_server =
    let no_list : o.list ≡ 0 = omega (arith, u.one_with_ping) in
    rw
      (
        eq→== o.self_test 0 no_test,
        eq→== o.create 0 no_create,
        eq→== o.server 0 no_server,
        eq→== o.list 0 no_list,
      )
      refl

module _ (lib : BerkeleyDb) where
  get_bytes-closed :
      (key : List ℕ) (h : Handles lib)
      → h constants ≡ none
      → get_bytes lib constants key h ≡ fault assertion_failed
  unfolding get_bytes ptr
  get_bytes-closed key h e = rw (e, ptr) refl

  pref_get_value-closed :
      (key : List ℕ) (h : Handles lib)
      → length key ≤ 2 ^ 30
      → h constants ≡ none
      → pref_get_value lib key h ≡ fault assertion_failed
  unfolding pref_get_value Constants.get_string db_get
  pref_get_value-closed key h short e =
      let (k, ek, pk) = buffer_of-Holds key short in
      rw (ek, unread-Holds key pk, get_bytes-closed key h e) refl

module _ (env : Env) (run : Proc env (Unit {0})) where
  -- For every command line that `parse_options` accepts and that asks for a ping, an extraction or a
  -- backup, and not for the self-test, a new archive or the server, `main` goes on to
  -- `start_remote_and_run`, and that stops at the assertion of `db_ptr` without a message to anybody if
  -- the database of the constants is not open: it reads a preference for the command to start.
  pub start_remote_and_run-parse_options :
      (open_db : Database → Option env.lib.Db) (flags : List Flag) (args : List (List ℕ))
      (o : Options) (p : Process env.lib)
      → parse_options flags args ≡ ok (some o)
      → o.ping + o.extract + o.backup ≢ 0
      → o.self_test ≡ 0
      → o.create ≡ 0
      → o.server ≡ 0
      → p.dbs constants ≡ none
      → (choose o ≡ connect) × (start_remote_and_run env run open_db o p ≡ fault assertion_failed)
  unfolding start_remote_and_run
  start_remote_and_run-parse_options open_db flags args o p e asked no_test no_create no_server
        closed =
      (
        connect-usable o (parse_options-IsUsable flags args o e) asked no_test no_create no_server,
        rw (pref_get_value-closed env.lib pref_daemon_command p.dbs (omega arith) closed) refl,
      )
