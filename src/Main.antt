-- ===== src/Main.antt =====
-- version-1/main.c and version-1/daemon.c: what the program does with its options, and how a client begins.
--
-- `run_main_loop` and the closing of the channels are the argument `run`; signals, logging and the remote
-- shell are not modelled, and `do_cmd` succeeds. MAINTAINER_MODE is defined, as in version-1/Makefile.
pub mod Choice
pub mod Contact
use cryptar.Prelude.{
  ℕ, Bool, true, false, not, ◌||◌, Option, some, List, [], ◌∷◌, ◌==◌, if◌then◌else◌,
  assertion_failed, stop, pure, ◌>>=◌, ◌>>◌,
}
use cryptar.Constants
use cryptar.Database.{Database}
use cryptar.Database.Opening.{db_open_client_dbs, pref_archive_id, pref_archive_pass}
use cryptar.Preferences.{pref_must_create, pref_daemon_command, pref_get_value}
use cryptar.Options.{Options, confirm_arguments}
use cryptar.Process
use cryptar.Process.{Env, Proc, with_dbs}
use cryptar.Protocol

-- What `main` starts.
pub data Task : Type 0 where
  self_test create_archive serve list_files connect : Task

-- The last tests of `main`; `connect` is the call of `start_remote_and_run`.
abbrev pub choose : Options → Task
choose o =
    if not (o.self_test == 0)
    then self_test
    else if not (o.create == 0)
    then create_archive
    else if not (o.server == 0)
    then serve
    else if not (o.list == 0)
    then list_files
    else connect

-- Two messages, as bytes.
abbrev ping_message : List ℕ
ping_message =
    80 ∷ 105 ∷ 110 ∷ 103 ∷ 32 ∷ 102 ∷ 114 ∷ 111 ∷ 109 ∷ 32 ∷ 99 ∷ 108 ∷ 105 ∷ 101 ∷ 110 ∷ 116 ∷ 32
    ∷ 118 ∷ 101 ∷ 114 ∷ 115 ∷ 105 ∷ 111 ∷ 110 ∷ 32 ∷ 48 ∷ 46 ∷ 48 ∷ []

abbrev client_message : List ℕ
client_message =
    67 ∷ 108 ∷ 105 ∷ 101 ∷ 110 ∷ 116 ∷ 32 ∷ 118 ∷ 101 ∷ 114 ∷ 115 ∷ 105 ∷ 111 ∷ 110 ∷ 32 ∷ 48 ∷ 46
    ∷ 48 ∷ 32 ∷ 104 ∷ 101 ∷ 114 ∷ 101 ∷ 33 ∷ []

module _ (env : Env) (run : Proc env (Unit {0})) where
  -- `none` of archive and password asks the server for an answer only.
  unfoldable pub do_ping : Proc env (Unit {0})
  do_ping = do
    Process.send env (
        Protocol.send_hello (record {
          version = 0;
          archive_id = 0;
          archive_pass = 0;
          create_archive = 0;
          message = some ping_message;
        }))
    run

  unfoldable pub do_server_init : (open_db : Database → Option env.lib.Db) → Proc env (Unit {0})
  do_server_init open_db = do
    with_dbs env (db_open_client_dbs env.lib open_db)
    id ← with_dbs env (Constants.get_int env.lib pref_archive_id)
    pass ← with_dbs env (Constants.get_int env.lib pref_archive_pass)
    create ← with_dbs env (Constants.get_int env.lib pref_must_create)
    Process.send env (
        Protocol.send_hello (record {
          version = 0;
          archive_id = id;
          archive_pass = pass;
          create_archive = create;
          message = some client_message;
        }))
    run

  -- The preference is read first, for the command that `do_cmd` starts. Nothing else is expected at the end.
  unfoldable pub start_remote_and_run :
      (open_db : Database → Option env.lib.Db) → Options → Proc env (Unit {0})
  start_remote_and_run open_db o = do
    with_dbs env (pref_get_value env.lib pref_daemon_command)
    if not (o.ping == 0)
        then do_ping
        else if not (o.extract == 0) || not (o.backup == 0)
        then do_server_init open_db
        else stop assertion_failed

  -- Whether the server has run: false is the result -1.
  unfoldable pub do_daemon : (num_args : ℕ) → Proc env Bool
  do_daemon num_args = if confirm_arguments num_args 0 false then (run >> pure true) else pure false
