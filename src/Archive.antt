-- ===== src/Archive.antt =====
-- version-1/archive.c: which files are archived, and the work tickets for them.
--
-- `fopen` and `fread` are the argument `content`, `none` where the file cannot be opened; `now` is `time(0)`.
-- `cycle` is `cycle_main_loop`: it lets the event loop of glib run the handlers a few times. `ftw` is the
-- argument `walk`, which gives the entries of a tree in the order of its callbacks, and `split` is
-- `g_strsplit` at spaces.
pub mod Unchanged
pub mod Room
use cryptar.Prelude.{
  ℕ, zero, suc, ◌%◌, ◌^◌, Bool, true, false, not, ◌||◌, Option, none, some, List, [], ◌∷◌, ◌++◌,
  ◌==◌, if◌then◌else◌, map, same_bytes, Result, ok, fault, exited, out_of_fuel, State, pure, stop,
  get, lift, ◌>>=◌, ◌>>◌,
}
use cryptar.Block.{DbBlock}
use cryptar.Preferences.{pref_get_value, pref_get_int_value_silent_default, pref_to_archive}
use cryptar.Covering.Update.{update_remote, save_local}
use cryptar.Filename.{DbFile}
use cryptar.Filename.Store as Files
use cryptar.Summary
use cryptar.Summary.{DbSummary, Stat}
use cryptar.Summary.Store as Summaries
use cryptar.Requests.Sending.{request_block_list}
use cryptar.Process
use cryptar.Process.{Env, Process, Proc, with_dbs, with_hash, bye}
use cryptar.Tickets.{WorkTicket, Status, archiving, new_ticket, sending_blocks, awaiting_block_list}
use cryptar.Tickets.Registry

-- The name of a preference, and the default that is given with it, as bytes.
abbrev pub pref_always_compare_hash : List ℕ
pref_always_compare_hash =
    97 ∷ 108 ∷ 119 ∷ 97 ∷ 121 ∷ 115 ∷ 95 ∷ 99 ∷ 111 ∷ 109 ∷ 112 ∷ 97 ∷ 114 ∷ 101 ∷ 95 ∷ 104 ∷ 97
    ∷ 115 ∷ 104 ∷ []

abbrev pub default_always : List ℕ
default_always = 49 ∷ []

-- The test on size and time.
abbrev pub is_changed : Stat → DbSummary → Bool → Bool
is_changed sb dbs open_anyway =
    not (sb.st_size % 2 ^ 32 == dbs.file_length)
    || not (sb.st_mtime % 2 ^ 32 == dbs.mod_time)
    || open_anyway

-- The comparison of the hash of the whole file: `none` is no file, else the new hash is in the summary.
unfoldable pub compare_hash :
    (List ℕ → List ℕ) → Option (List ℕ) → DbSummary → Result (Option (List ℕ × DbSummary))
compare_hash sha1 none dbs = fault exited
compare_hash sha1 (some content) dbs =
    if same_bytes (sha1 content) dbs.file_sha1
    then ok none
    else ok (some (content, record dbs { file_sha1 = sha1 content }))

-- What `ftw` tells of an entry.
pub data Entry : Type 0 where
  file : (name : List ℕ) (sb : Stat) (content : Option (List ℕ)) → Entry
  directory unreadable no_stat symbolic_link : Entry

module _ (env : Env) (cycle : Proc env (Unit {0})) (now : ℕ) where
  unfoldable pub open_if_changed :
      Stat → Option (List ℕ) → DbSummary → Bool → Proc env (Option (List ℕ × DbSummary))
  open_if_changed sb content dbs open_anyway =
      if is_changed sb dbs open_anyway
      then lift (compare_hash env.sha1 content dbs)
      else (with_dbs env
            (pref_get_int_value_silent_default env.lib pref_always_compare_hash default_always)
          >>= λ always. if always == 0 then pure none else lift (compare_hash env.sha1 content dbs))

  -- The record and the summary of a file, and whether it is new.
  unfoldable pub add_file : List ℕ → Stat → Proc env (DbFile × DbSummary × Bool)
  add_file name sb = do
    dbf ← with_dbs env (Files.add env.lib env.server name)
    pure (dbf, Summary.new dbf.file_id sb now, true)

  abbrev known_summary : DbFile → Stat → Option DbSummary → DbFile × DbSummary × Bool
  known_summary dbf sb none = (dbf, Summary.new dbf.file_id sb now, true)
  known_summary dbf sb (some dbs) = (dbf, dbs, false)

  abbrev pub known_file : List ℕ → Stat → Option DbFile → Proc env (DbFile × DbSummary × Bool)
  known_file name sb none = add_file name sb
  known_file name sb (some dbf) = with_dbs env (Summaries.fetch_last env.lib dbf.file_id) >>= λ dbs.
      pure (known_summary dbf sb dbs)

  unfoldable pub identify : List ℕ → Stat → Proc env (DbFile × DbSummary × Bool)
  identify name sb = with_dbs env (Files.fetch env.lib name) >>= known_file name sb

  abbrev pub changed_summary : Stat → DbSummary → DbSummary
  changed_summary sb dbs = record dbs {
    summary_time = now % 2 ^ 32;
    mod_time = sb.st_mtime % 2 ^ 32;
    file_length = sb.st_size % 2 ^ 32;
    inode_number = sb.st_ino % 2 ^ 32;
    permissions = sb.st_mode % 2 ^ 32;
  }

  abbrev pub ticket_of : DbFile → DbSummary → List ℕ → WorkTicket
  ticket_of dbf dbs content = record {
    dbf = dbf;
    summary = dbs;
    block_list = [];
    num_blocks_moved = 0;
    next_block_to_queue = 0;
    status = new_ticket;
    file = content;
    action = archiving;
  }

  -- A new file has its blocks at once, one that is known waits for its block list.
  unfoldable pub prepare : WorkTicket → Bool → Proc env WorkTicket
  prepare wt true = do
    covered ← with_hash env (
        update_remote env.sort env.sha1 wt.file env.block_length wt.summary.file_length
          wt.block_list)
    saved ← with_dbs env (save_local env.lib env.server covered)
    pure (record wt { block_list = saved; status = sending_blocks })
  prepare wt false = do request_block_list env wt; pure (record wt { status = awaiting_block_list })

  abbrev pub queue_file : DbFile → Stat → Bool → Option (List ℕ × DbSummary) → Proc env (Unit {0})
  queue_file dbf sb new_file none = pure tt
  queue_file dbf sb new_file (some (content, dbs)) = do
    wt ← prepare (ticket_of dbf (changed_summary sb dbs) content) new_file
    Registry.insert env wt
    cycle

  unfoldable pub archive_file : List ℕ → Stat → Option (List ℕ) → Proc env (Unit {0})
  archive_file name sb content = do
    (dbf, dbs, new_file) ← identify name sb
    opened ← open_if_changed sb content dbs new_file
    queue_file dbf sb new_file opened

  -- `while(wt_queue_full())`
  unfoldable pub wait_for_room : (fuel : ℕ) → Proc env (Unit {0})
  wait_for_room zero p = fault out_of_fuel
  wait_for_room (suc fuel) p =
      if Registry.queue_full env p then (cycle >> wait_for_room fuel) p else ok (tt, p)

  abbrev pub archive_entry : Entry → Proc env (Unit {0})
  archive_entry (file name sb content) = archive_file name sb content
  archive_entry _ = pure tt

  -- The callback of `ftw`: whether to go on, which depends on the main loop alone.
  unfoldable pub archive_it : (fuel : ℕ) → Entry → Proc env Bool
  archive_it fuel entry = do wait_for_room fuel; archive_entry entry; p ← get; pure p.running

  unfoldable pub archive_all : (fuel : ℕ) → List Entry → Proc env (Unit {0})
  archive_all fuel [] = pure tt
  archive_all fuel (entry ∷ entries) =
      archive_it fuel entry >>= λ go_on. if go_on then archive_all fuel entries else pure tt

  unfoldable pub archive_trees : (fuel : ℕ) → List (List Entry) → Proc env (Unit {0})
  archive_trees fuel [] = pure tt
  archive_trees fuel (tree ∷ trees) = do archive_all fuel tree; archive_trees fuel trees

  unfoldable pub do_archive :
      (fuel : ℕ) (split : List ℕ → List (List ℕ)) (walk : List ℕ → List Entry) → Proc env (Unit {0})
  do_archive fuel split walk = do
    Registry.working env true
    to_archive ← with_dbs env (pref_get_value env.lib pref_to_archive)
    archive_trees fuel (map walk (split to_archive))
    Registry.working env false
    p ← get
    if Registry.more env p then pure tt else Process.send_bye env bye
