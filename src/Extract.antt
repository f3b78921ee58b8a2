-- ===== src/Extract.antt =====
-- version-1/extract.c: which files are extracted, and the work tickets for them.
--
-- `files` is what the cursor over the file records gives, and `cycle` is `cycle_main_loop`. The file that is
-- written can always be opened.
pub mod Wanted
use cryptar.Prelude.{
  ℕ, Bool, true, Option, none, some, List, [], ◌∷◌, if◌then◌else◌, length, take, same_bytes, pure,
  get, ◌>>=◌, ◌>>◌,
}
use cryptar.Filename.{DbFile}
use cryptar.Summary.{DbSummary}
use cryptar.Summary.Store as Summaries
use cryptar.Requests.Sending.{request_block_list}
use cryptar.Process
use cryptar.Process.{Env, Process, Proc, with_dbs, bye}
use cryptar.Tickets.{WorkTicket, extracting, awaiting_block_list}
use cryptar.Tickets.Registry

-- `strncmp(dbf->filename, file, strlen(file)) == 0`; every file without an argument.
abbrev pub is_wanted : Option (List ℕ) → DbFile → Bool
is_wanted none dbf = true
is_wanted (some name) dbf = same_bytes (take (length name) dbf.filename) name

module _ (env : Env) (cycle : Proc env (Unit {0})) where
  unfoldable pub extract_file : DbFile → DbSummary → Proc env (Unit {0})
  extract_file dbf dbs = do
    let wt : WorkTicket = record {
      dbf = dbf;
      summary = dbs;
      block_list = [];
      num_blocks_moved = 0;
      next_block_to_queue = 0;
      status = awaiting_block_list;
      file = [];
      action = extracting;
    }
    request_block_list env wt
    Registry.insert env wt

  -- A file without a summary is only warned of.
  abbrev extract_with : DbFile → Option DbSummary → Proc env (Unit {0})
  extract_with dbf none = pure tt
  extract_with dbf (some dbs) = extract_file dbf dbs

  unfoldable pub extract_it : List DbFile → Option (List ℕ) → Proc env (Unit {0})
  extract_it [] name = pure tt
  extract_it (dbf ∷ files) name = do
    if is_wanted name dbf
        then (with_dbs env (Summaries.fetch_last env.lib dbf.file_id) >>= extract_with dbf)
        else pure tt
    cycle
    extract_it files name

  abbrev extract_each : List DbFile → List (List ℕ) → Proc env (Unit {0})
  extract_each files [] = pure tt
  extract_each files (name ∷ names) = do extract_it files (some name); extract_each files names

  -- Without arguments every file is extracted.
  abbrev extract_args : List DbFile → List (List ℕ) → Proc env (Unit {0})
  extract_args files [] = extract_it files none
  extract_args files (name ∷ names) = extract_each files (name ∷ names)

  unfoldable pub do_extract : List DbFile → (args : List (List ℕ)) → Proc env (Unit {0})
  do_extract files args = do
    extract_args files args
    p ← get
    if Registry.more env p then pure tt else Process.send_bye env bye
