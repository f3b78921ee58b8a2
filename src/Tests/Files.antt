-- ===== src/Tests/Files.antt =====
-- Files in the databases of a client at concrete inputs.
use cryptar.Prelude.{
  ℕ, ◌+◌, ◌%◌, ◌^◌, ◌≡◌, ◌≢◌, ◌⊎◌, refl, inl, Option, Result, fault, out_of_bounds, ◌==◌,
  if◌then◌else◌, none, some, List, [], ◌∷◌, ok, be32,
}
use cryptar.Archive.{Entry, file, directory, archive_trees, archive_file, pref_always_compare_hash}
use cryptar.Archive.Unchanged.{archive_file-unchanged, archive_file-stored}
use cryptar.Constants
use cryptar.Database.{Database, Handles, index_of, set_handle, filenames, summary, constants}
use cryptar.Main.{do_server_init}
use cryptar.Main.Contact.{do_server_init-do_create}
use cryptar.Preferences.{Answers, do_create}
use cryptar.Filename.{DbFile}
use cryptar.Filename.Codec.{file_bytes}
use cryptar.Filename.Store as Files
use cryptar.Process.{Process}
use cryptar.Summary.{DbSummary, Stat}
use cryptar.Summary.Codec.{summary_bytes}
use cryptar.Summary.Store as Summaries
use cryptar.Tests.{memory, nothing, all_open, put_in, Table}
use cryptar.Tests.Processes.{an_env, a_process}

abbrev known : DbFile
known = record { filename = 97 ∷ 98 ∷ []; file_id = 5; version = 0 }

abbrev a_stat : Stat
a_stat = record { st_mtime = 2 ^ 32 + 5; st_size = 10; st_ino = 11; st_mode = 12 }

-- A summary with hashes of 20 bytes.
abbrev hash : List ℕ
hash = 1 ∷ 2 ∷ 3 ∷ 4 ∷ 5 ∷ 6 ∷ 7 ∷ 8 ∷ 9 ∷ 10 ∷ 11 ∷ 12 ∷ 13 ∷ 14 ∷ 15 ∷ 16 ∷ 17 ∷ 18 ∷ 19 ∷ 20 ∷ []

abbrev last : DbSummary
last = record {
  summary_id = 5;
  version = 0;
  file_id = 5;
  summary_time = 1000;
  mod_time = 5;
  file_length = 10;
  inode_number = 11;
  permissions = 12;
  file_sha1 = hash;
  block_list_sha1 = hash;
  block_list_length = 35;
  block_list_remote_id = 3;
}

-- The databases after the file was archived, with the preference off.
abbrev stored : Handles memory
stored =
    set_handle memory
      (set_handle memory
        (set_handle memory all_open filenames
          (some (put_in nothing known.filename (file_bytes known))))
        summary (some (put_in nothing (be32 5) (summary_bytes last))))
      constants (some (put_in nothing pref_always_compare_hash (be32 0)))

abbrev a_client : Process memory
a_client = record a_process { dbs = stored }

known_found : Files.fetch memory known.filename stored ≡ ok (some known, stored)
unfolding Files.fetch cryptar.Ios.set_buffer cryptar.Ios.append cryptar.Ios.reset
    cryptar.Database.db_get cryptar.Database.get_bytes cryptar.Database.ptr cryptar.Ios.unread
    cryptar.Ios.buffer cryptar.Ios.at cryptar.Ios.buffer_size cryptar.Filename.from_stream
    cryptar.Ios.read_int16 cryptar.Ios.read_int32
known_found = refl

last_found : Summaries.fetch_last memory 5 stored ≡ ok (some last, stored)
unfolding Summaries.fetch_last Summaries.fetch cryptar.Ios.set_buffer cryptar.Ios.append
    cryptar.Ios.reset cryptar.Database.db_get cryptar.Database.get_bytes cryptar.Database.ptr
    cryptar.Ios.unread cryptar.Ios.buffer cryptar.Ios.at cryptar.Ios.buffer_size
    cryptar.Ios.append_int32 summary_bytes cryptar.Summary.from_stream cryptar.Ios.read_byte
    cryptar.Ios.read cryptar.Ios.copy_from cryptar.Ios.first cryptar.Ios.read_bytes
    cryptar.Ios.read_int32
last_found = refl

switched_off : Constants.get_int memory pref_always_compare_hash stored ≡ ok (0, stored)
unfolding Constants.get_int cryptar.Ios.set_buffer cryptar.Ios.append cryptar.Ios.reset
    cryptar.Database.db_get cryptar.Database.get_bytes cryptar.Database.ptr cryptar.Ios.unread
    cryptar.Ios.buffer cryptar.Ios.at cryptar.Ios.buffer_size cryptar.Ios.read_int32
switched_off = refl

-- The same client, without the preference.
abbrev fresh : Handles memory
fresh = set_handle memory stored constants (some nothing)

known_again : Files.fetch memory known.filename fresh ≡ ok (some known, fresh)
unfolding Files.fetch cryptar.Ios.set_buffer cryptar.Ios.append cryptar.Ios.reset
    cryptar.Database.db_get cryptar.Database.get_bytes cryptar.Database.ptr cryptar.Ios.unread
    cryptar.Ios.buffer cryptar.Ios.at cryptar.Ios.buffer_size cryptar.Filename.from_stream
    cryptar.Ios.read_int16 cryptar.Ios.read_int32
known_again = refl

last_again : Summaries.fetch_last memory 5 fresh ≡ ok (some last, fresh)
unfolding Summaries.fetch_last Summaries.fetch cryptar.Ios.set_buffer cryptar.Ios.append
    cryptar.Ios.reset cryptar.Database.db_get cryptar.Database.get_bytes cryptar.Database.ptr
    cryptar.Ios.unread cryptar.Ios.buffer cryptar.Ios.at cryptar.Ios.buffer_size
    cryptar.Ios.append_int32 summary_bytes cryptar.Summary.from_stream cryptar.Ios.read_byte
    cryptar.Ios.read cryptar.Ios.copy_from cryptar.Ios.first cryptar.Ios.read_bytes
    cryptar.Ios.read_int32
last_again = refl

abbrev a_new_client : Process memory
a_new_client = record a_process { dbs = fresh }

archive_file-unchanged_example :
    (((a_stat.st_size % 2 ^ 32 ≢ 10) ⊎ (a_stat.st_mtime % 2 ^ 32 ≢ 5))
      × (archive_file an_env (λ p. ok (tt, p)) 2000 known.filename a_stat (some hash) a_new_client
          ≡ ok (tt, a_new_client)))
    ⊎ ((a_stat.st_size % 2 ^ 32 ≡ 10)
        × (a_stat.st_mtime % 2 ^ 32 ≡ 5)
        × (archive_file an_env (λ p. ok (tt, p)) 2000 known.filename a_stat (some hash) a_new_client
            ≡ fault out_of_bounds))
archive_file-unchanged_example =
    archive_file-unchanged an_env (λ p. ok (tt, p)) 2000 known.filename a_stat hash known last
      a_new_client nothing known_again last_again refl refl refl

skipped :
    archive_file an_env (λ p. ok (tt, p)) 2000 known.filename a_stat none a_client
    ≡ ok (tt, a_client)
skipped =
    archive_file-stored an_env (λ p. ok (tt, p)) 2000 known.filename a_stat none known last 0
      a_client known_found last_found switched_off (inl (refl, refl, refl))

-- A tree with a directory and the file.
abbrev tree : List Entry
tree = directory ∷ file known.filename a_stat none ∷ []

walked : archive_trees an_env (λ p. ok (tt, p)) 2000 1 (tree ∷ []) a_client ≡ ok (tt, a_client)
unfolding archive_trees cryptar.Archive.archive_all cryptar.Archive.archive_it
    cryptar.Archive.wait_for_room
walked = rw skipped refl

abbrev answers : Answers
answers = record { daemon_command = 97 ∷ []; to_archive = []; block_length = []; is_ok = 121 ∷ [] }

-- What a run leaves.
abbrev left : Handles memory → Result (Unit {0} × Handles memory) → Handles memory
left h (ok (u, h')) = h'
left h (fault e) = h

abbrev table_of : Option Table → Table
table_of none = nothing
table_of (some t) = t

abbrev created : Handles memory
created =
    left all_open (do_create memory (λ d. some nothing) (λ text. 512) 7 (47 ∷ []) answers all_open)

answers_created :
    do_create memory (λ d. some nothing) (λ text. 512) 7 (47 ∷ []) answers all_open
    ≡ ok (tt, created)
unfolding do_create cryptar.Preferences.store_answers cryptar.Database.Opening.db_open
    Constants.put_string Constants.put_int cryptar.Database.db_put cryptar.Database.put_bytes
    cryptar.Database.ptr cryptar.Ios.set_buffer cryptar.Ios.append cryptar.Ios.reset
    cryptar.Ios.unread cryptar.Ios.buffer cryptar.Ios.at cryptar.Ios.buffer_size
    cryptar.Ios.append_int32 cryptar.Ios.append_string
answers_created = refl

created_constants : created constants ≡ some (table_of (created constants))
unfolding do_create cryptar.Preferences.store_answers cryptar.Database.Opening.db_open
    Constants.put_string Constants.put_int cryptar.Database.db_put cryptar.Database.put_bytes
    cryptar.Database.ptr cryptar.Ios.set_buffer cryptar.Ios.append cryptar.Ios.reset
    cryptar.Ios.unread cryptar.Ios.buffer cryptar.Ios.at cryptar.Ios.buffer_size
    cryptar.Ios.append_int32 cryptar.Ios.append_string
created_constants = refl

-- The databases that the client opens next.
abbrev opens : Database → Option Table
opens d = if index_of d == 4 then some (table_of (created constants)) else some nothing

do_server_init-do_create_example :
    do_server_init an_env (λ p. ok (tt, p)) opens a_process ≡ fault out_of_bounds
do_server_init-do_create_example =
    do_server_init-do_create an_env (λ p. ok (tt, p)) (λ d. some nothing) opens (λ text. 512) 7
      (47 ∷ []) answers all_open created a_process nothing nothing nothing nothing
      (table_of (created constants)) refl refl refl answers_created refl refl refl refl
      created_constants
