-- ===== src/Tests/Tickets.antt =====
-- Work tickets at concrete inputs.
use cryptar.Prelude.{
  ℕ, ◌≡◌, refl, arith, inl, inr, true, false, none, some, List, [], ◌∷◌, ◌++◌, assertion_failed, ok,
  fault, out_of_bounds, be32, Result,
}
use cryptar.Ios
use cryptar.Ios.{IosBuf}
use cryptar.Block.{DbBlock}
use cryptar.Block.Store as Blocks
use cryptar.Block.Store.Mismatch.{local_bytes, block_fetch-add}
use cryptar.Database.{Handles}
use cryptar.Filename.{DbFile}
use cryptar.Key.{DbKey}
use cryptar.Key
use cryptar.Key.Mismatch.{key_bytes, key_fetch-add}
use cryptar.Options.{Options, backup_flag, daemon_flag, parse_options}
use cryptar.Main.{connect, choose, do_daemon, start_remote_and_run}
use cryptar.Main.Choice.{start_remote_and_run-parse_options, do_daemon-parse_options}
use cryptar.Options.Safety.{IsUsable, parse_options-IsUsable}
use cryptar.Process
use cryptar.Process.{Process, bye}
use cryptar.Protocol.{ProtoIds}
use cryptar.Protocol.Acks.{listed, Followed, accept_put_ack-block, accept_put_ack-list}
use cryptar.Protocol.Client.{accept_put_ack}
use cryptar.Protocol.Counting.{accept_all, accept_all-send_block_requests}
use cryptar.Protocol.Rebuild.{install_all, Restored, install_all-Restored}
use cryptar.Summary
use cryptar.Summary.{DbSummary}
use cryptar.Summary.Codec.{summary_bytes, IsWellTyped}
use cryptar.Summary.Store as Summaries
use cryptar.Tests.{memory, nothing, all_open, put_in, block_at}
use cryptar.Tests.Processes.{an_env, a_process}
use cryptar.Tickets.{
  WorkTicket, archiving, extracting, sending_blocks, sending_block_requests,
  awaiting_block_confirms,
}
use cryptar.Tickets.Registry
use cryptar.Tickets.Registry.{find_ticket, find_block, replace_ticket, drop_ticket}
use cryptar.Tickets.Work.{send_block_requests}

abbrev backed_up : Options
backed_up = record {
  backup = 1;
  create = 0;
  extract = 0;
  list = 0;
  server = 0;
  ping = 0;
  verbose = 0;
  dryrun = 0;
  self_test = 0;
  archive_target = some (97 ∷ []);
  args = [];
}

backup_parsed : parse_options (backup_flag ∷ []) ((97 ∷ []) ∷ []) ≡ ok (some backed_up)
unfolding parse_options cryptar.Options.set_flags cryptar.Options.set_flag cryptar.Options.set_args
    cryptar.Options.flags_consistent
backup_parsed = refl

parse_options-IsUsable_example : IsUsable backed_up
parse_options-IsUsable_example =
    parse_options-IsUsable (backup_flag ∷ []) ((97 ∷ []) ∷ []) backed_up backup_parsed

-- The databases are not open yet.
abbrev starting : Process memory
starting = record a_process { dbs = λ d. none }

start_remote_and_run-parse_options_example :
    (choose backed_up ≡ connect)
    × (start_remote_and_run an_env (λ p. ok (tt, p)) (λ d. none) backed_up starting
        ≡ fault assertion_failed)
start_remote_and_run-parse_options_example =
    start_remote_and_run-parse_options an_env (λ p. ok (tt, p)) (λ d. none) (backup_flag ∷ [])
      ((97 ∷ []) ∷ []) backed_up starting backup_parsed (omega arith) refl refl refl refl

abbrev served : Options
served = record backed_up { backup = 0; server = 1 }

daemon_parsed : parse_options (daemon_flag ∷ []) ((97 ∷ []) ∷ []) ≡ ok (some served)
unfolding parse_options cryptar.Options.set_flags cryptar.Options.set_flag cryptar.Options.set_args
    cryptar.Options.flags_consistent
daemon_parsed = refl

do_daemon-parse_options_example :
    do_daemon an_env (λ p. ok (tt, p)) 1 a_process ≡ ok (false, a_process)
do_daemon-parse_options_example =
    do_daemon-parse_options an_env (λ p. ok (tt, p)) (daemon_flag ∷ []) ((97 ∷ []) ∷ []) served
      a_process daemon_parsed refl

abbrev a_file : DbFile
a_file = record { filename = 97 ∷ 98 ∷ 99 ∷ []; file_id = 5; version = 0 }

abbrev a_summary : DbSummary
a_summary = Summary.new 5 (record { st_mtime = 5; st_size = 10; st_ino = 11; st_mode = 12 }) 1000

-- A ticket whose only block is stored already.
abbrev a_ticket : WorkTicket
a_ticket = record {
  dbf = a_file;
  summary = a_summary;
  block_list = block_at 0 ∷ [];
  num_blocks_moved = 0;
  next_block_to_queue = 0;
  status = sending_blocks;
  file = 1 ∷ 2 ∷ 3 ∷ 4 ∷ [];
  action = archiving;
}

abbrev with_ticket : WorkTicket → Process memory
with_ticket wt = record a_process { work_list = wt ∷ [] }

key_fetch-add_example :
    (h' : Handles memory) × (dbk : DbKey) × (Key.add memory false (42 ∷ []) all_open ≡ ok (dbk, h'))
    × (dbk.key_id ≡ 1)
    × (Key.fetch memory dbk.key_id h' ≡ ok (none, h'))
key_fetch-add_example =
    key_fetch-add memory false (42 ∷ []) 0 all_open nothing (put_in nothing (be32 6) (be32 1))
      nothing (put_in nothing (42 ∷ []) (key_bytes (42 ∷ []))) (omega arith) (omega arith) refl
      (inl (refl, refl)) refl refl refl (λ e. cc) refl

abbrev put_ack : ℕ → ProtoIds
put_ack block_id = record { file_id = 5; block_id = block_id; archive_id = 9 }

abbrev in_flight : WorkTicket
in_flight = record a_ticket { num_blocks_moved = 2; block_list = block_at 8 ∷ [] }

-- The local database with the acknowledged block.
abbrev acknowledged : DbBlock
acknowledged = record (block_at 8) { block_acked = true; remote_id = 9 }

block_written :
    (h' : Handles memory) × (Blocks.add memory acknowledged all_open ≡ ok (tt, h'))
    × (Blocks.fetch memory 3 h' ≡ fault out_of_bounds)
block_written =
    block_fetch-add memory acknowledged all_open nothing
      (put_in nothing (be32 3) (local_bytes acknowledged)) (omega arith) (omega arith) refl refl

accept_put_ack-block_example :
    (wt' : WorkTicket) × (accept_put_ack an_env (put_ack 3) (with_ticket in_flight)
      ≡ ok (
        tt,
        record (with_ticket in_flight) {
          work_list = replace_ticket 5 wt' (in_flight ∷ []);
          dbs = block_written.0;
        },
      ))
    × (find_ticket 5 (replace_ticket 5 wt' (in_flight ∷ [])) ≡ some wt')
    × (wt'.num_blocks_moved ≡ 1)
    × (find_block wt'.block_list 3 ≡ some acknowledged)
accept_put_ack-block_example =
    accept_put_ack-block an_env (put_ack 3) in_flight (block_at 8) (with_ticket in_flight)
      block_written.0 (omega arith) (omega arith) refl refl refl (omega arith) (omega arith)
      block_written.1

listed_summary-IsWellTyped : IsWellTyped (listed (put_ack 0) a_ticket)
unfolding Summary.new
listed_summary-IsWellTyped = omega arith

-- A ticket of another file, which stays.
abbrev other_ticket : WorkTicket
other_ticket = record a_ticket { dbf = record a_file { file_id = 7 } }

abbrev two_tickets : Process memory
two_tickets = record a_process { work_list = other_ticket ∷ a_ticket ∷ [] }

accept_put_ack-list_example :
    (h' : Handles memory) × (before after : List WorkTicket) × (Summaries.fetch memory
        a_ticket.summary.summary_id h'
      ≡ ok (some (listed (put_ack 0) a_ticket), h'))
    × (two_tickets.work_list ≡ before ++ (a_ticket ∷ after))
    × (find_ticket 5 before ≡ none)
    × Followed an_env
        (before ++ after)
        (record two_tickets { work_list = before ++ after; dbs = h' })
        (accept_put_ack an_env (put_ack 0) two_tickets)
unfolding Summary.new
accept_put_ack-list_example =
    accept_put_ack-list an_env (put_ack 0) a_ticket two_tickets nothing
      (put_in nothing (be32 a_ticket.summary.summary_id)
        (summary_bytes (listed (put_ack 0) a_ticket)))
      (omega arith) refl refl refl listed_summary-IsWellTyped (omega arith) refl refl

-- Two blocks of a file, the second over a part of the first.
abbrev first_block : DbBlock
first_block = record (block_at 0) { strong_checksum = 1 ∷ 2 ∷ 3 ∷ 4 ∷ [] }

abbrev second_block : DbBlock
second_block = record (block_at 2) { strong_checksum = 3 ∷ 4 ∷ 5 ∷ 6 ∷ [] }

install_all-Restored_example :
    Restored
      (1 ∷ 2 ∷ 3 ∷ 4 ∷ 5 ∷ 6 ∷ [])
      (install_all an_env
        (1 ∷ 2 ∷ 3 ∷ 4 ∷ 5 ∷ 6 ∷ [])
        a_ticket
        (first_block ∷ second_block ∷ [])).file
      4
install_all-Restored_example =
    install_all-Restored an_env (1 ∷ 2 ∷ 3 ∷ 4 ∷ 5 ∷ 6 ∷ []) a_ticket
      (first_block ∷ second_block ∷ []) 4
      (
        record { within = omega arith; described = refl },
        (record { within = omega arith; described = refl }, tt),
      )
      (inr (inl (omega arith, omega arith)))

-- A file whose one block is asked for and comes.
abbrev wanted : WorkTicket
wanted = record a_ticket {
  block_list = record (block_at 0) { strong_checksum = 7 ∷ 8 ∷ 9 ∷ [] } ∷ [];
  status = sending_block_requests;
  action = extracting;
}

abbrev asked : WorkTicket
asked = record wanted { status = awaiting_block_confirms; next_block_to_queue = 1 }

abbrev sealed : IosBuf
sealed = record {
  alloc_len = 1024;
  read_ptr = 0;
  len = 19;
  buf = 1 ∷ 2 ∷ 3 ∷ 4 ∷ 5 ∷ 6 ∷ 7 ∷ 8 ∷ 9 ∷ 10 ∷ 11 ∷ 12 ∷ 13 ∷ 14 ∷ 15 ∷ 16 ∷ 7 ∷ 8 ∷ 9 ∷ [];
}

-- What a run leaves.
abbrev left : {A : Type 0} → Process memory → Result (A × Process memory) → Process memory
left p (ok (a, p')) = p'
left p (fault e) = p

abbrev requested : Process memory
requested = left a_process (send_block_requests an_env wanted a_process)

abbrev extracted : Process memory
extracted = left a_process (accept_all an_env 5 ((3, sealed) ∷ []) (with_ticket asked))

wanted-asked : send_block_requests an_env wanted a_process ≡ ok (asked, requested)
unfolding send_block_requests cryptar.Tickets.Work.queue_blocks Ios.buffer_size
    cryptar.Tickets.Work.request_block Process.send cryptar.Protocol.send_get_block Ios.append_int8
    Ios.append Ios.append_int32 Process.io_send_ios cryptar.Protocol.io_send_ios Ios.buffer Ios.at
    Ios.copy_from
wanted-asked = refl

asked-extracted : accept_all an_env 5 ((3, sealed) ∷ []) (with_ticket asked) ≡ ok (tt, extracted)
unfolding accept_all Ios.buffer_size cryptar.Protocol.Client.accept_get_ack Registry.find
    cryptar.Protocol.Client.accept_get_ack_block cryptar.Protocol.Client.block_got Process.unseal
    cryptar.Encryption.decrypt Ios.buffer Ios.at Ios.append cryptar.Compress.do_decompress
    Ios.set_buffer Ios.unread Ios.reset cryptar.Protocol.Client.install_block
asked-extracted = refl

accept_all-send_block_requests_example :
    (wt'' : WorkTicket) × (find_ticket 5 extracted.work_list ≡ some wt'')
accept_all-send_block_requests_example =
    accept_all-send_block_requests an_env wanted asked a_process requested (with_ticket asked)
      extracted 5 ((3, sealed) ∷ []) refl wanted-asked refl (omega arith) (omega arith, tt)
      (omega arith) asked-extracted
