-- ===== src/Tests/Processes.antt =====
-- A client and a server at concrete inputs.
use cryptar.Prelude.{
  ℕ, ◌≡◌, refl, arith, inl, true, false, none, some, [], ◌∷◌, ok, pure, be32, pure-Keeps,
}
use cryptar.Ios
use cryptar.Ios.{IosBuf}
use cryptar.Ios.Buffers.{Holds}
use cryptar.Database.{Handles}
use cryptar.Process
use cryptar.Process.{Env, Process, Proc, bye}
use cryptar.Protocol
use cryptar.Protocol.{ProtoHelloAck}
use cryptar.Protocol.Draining.{Drains, keeps-Drains, read_and_dispatch_commands-Drains}
use cryptar.Protocol.Server.{accept_put_block, accept_get_block, send_get_ack}
use cryptar.Protocol.Storing.{accept_get_block-accept_put_block}
use cryptar.Protocol.Dispatch.{read_and_dispatch_commands}
use cryptar.Protocol.Termination.{Dispatched, read_and_dispatch_commands-Dispatched}
use cryptar.Remote.{add, fetch}
use cryptar.Remote.Codec.{archive_of, archive_bytes}
use cryptar.Remote.RoundTrip.{IsStorable, remote_fetch-add}
use cryptar.Tests.{memory, nothing, all_open, put_in, Table}

-- Bytes that only have to pass through: the cipher and the compression leave them as they are.
abbrev pub an_env : Env
an_env = record {
  lib = memory;
  sort = λ less blocks. blocks;
  sha1 = λ bytes. bytes;
  compress = λ bytes. some bytes;
  uncompress = λ bytes n. some bytes;
  ctr = λ key iv text. text;
  key = [];
  yarrow = λ n. 1 ∷ 2 ∷ 3 ∷ 4 ∷ 5 ∷ 6 ∷ 7 ∷ 8 ∷ 9 ∷ 10 ∷ 11 ∷ 12 ∷ 13 ∷ 14 ∷ 15 ∷ 16 ∷ [];
  block_length = 4;
  server = true;
  backup = false;
  extract = false;
}

abbrev pub a_process : Process memory
a_process = record {
  dbs = all_open;
  hash = record { hash_table = none; entry_pool = false; hash_entries = 0; hash_collisions = 0 };
  work_list = [];
  more_work = false;
  read_buf = Ios.new;
  write_buf = Ios.new;
  ignore_input = false;
  ignore_output = false;
  output_watched = false;
  running = true;
  draws = 0;
}

abbrev pub three_bytes : IosBuf
three_bytes = record { alloc_len = 1024; read_ptr = 0; len = 3; buf = 7 ∷ 8 ∷ 9 ∷ [] }

three_bytes-IsStorable : IsStorable three_bytes
three_bytes-IsStorable = record { valid = omega arith; at_start = refl; fits = omega arith }

abbrev counted : ℕ → Table → Table
counted n t = put_in t (be32 3) (be32 n)

remote_fetch-add_example :
    (h' : Handles memory) × (content : IosBuf) × (add memory true
        (archive_of 0 0 three_bytes)
        all_open
      ≡ ok (1, h'))
    × (fetch memory 1 h' ≡ ok (some (archive_of 1 0 content), h'))
    × Holds (7 ∷ 8 ∷ 9 ∷ []) content
remote_fetch-add_example =
    remote_fetch-add memory true three_bytes 0 all_open nothing (counted 1 nothing) nothing
      (put_in nothing (be32 1) (archive_bytes (archive_of 1 0 three_bytes))) three_bytes-IsStorable
      (omega arith) (omega arith) refl (inl (refl, refl)) refl refl refl

accept_get_block-accept_put_block_example :
    (h' : Handles memory) × (content : IosBuf) × (accept_put_block an_env
        (record { file_id = 5; block_id = 6; ios = three_bytes })
        a_process
      ≡ Process.send an_env
          (Protocol.send_put_ack (record { file_id = 5; block_id = 6; archive_id = 1 }))
          (record a_process { dbs = h' }))
    × (accept_get_block an_env
          (record { file_id = 5; block_id = 6; archive_id = 1 })
          (record a_process { dbs = h' })
        ≡ send_get_ack an_env
            (record { file_id = 5; block_id = 6; archive_id = 1 })
            content
            (record a_process { dbs = h' }))
    × Holds (7 ∷ 8 ∷ 9 ∷ []) content
accept_get_block-accept_put_block_example =
    accept_get_block-accept_put_block an_env
      (record { file_id = 5; block_id = 6; ios = three_bytes }) 0 a_process a_process 5 6 nothing
      (counted 1 nothing) nothing
      (put_in nothing (be32 1) (archive_bytes (archive_of 1 0 three_bytes))) three_bytes-IsStorable
      (omega arith) (omega arith) refl (inl (refl, refl)) refl refl refl

-- The answer to a hello, a goodbye, and the start of another packet.
abbrev arrived : IosBuf
arrived = record {
  alloc_len = 1024;
  read_ptr = 0;
  len = 21;
  buf =
      0 ∷ 0 ∷ 0 ∷ 8 ∷ Protocol.cmd_hello_ack ∷ 0 ∷ 0 ∷ 0 ∷ 0 ∷ 0 ∷ 0 ∷ 0 ∷ 0 ∷ 0 ∷ 0 ∷ 4
      ∷ Protocol.cmd_bye ∷ 0 ∷ 0 ∷ 0 ∷ 0 ∷ [];
}

-- A handler that dispatches what is left of the read buffer before it returns.
abbrev nested : ProtoHelloAck → Proc an_env (Unit {0})
nested pha = read_and_dispatch_commands an_env (λ ph. pure tt) (λ pha. pure tt) 3

nested-Drains : (pha : ProtoHelloAck) → Drains an_env (nested pha)
nested-Drains pha =
    read_and_dispatch_commands-Drains an_env (λ ph. pure tt) (λ pha. pure tt)
      (λ ph. keeps-Drains an_env (pure-Keeps tt)) (λ pha. keeps-Drains an_env (pure-Keeps tt)) 3

read_and_dispatch_commands-Dispatched_example :
    Dispatched an_env
      (λ ph. pure tt)
      nested
      (record a_process { read_buf = arrived })
      (read_and_dispatch_commands an_env
        (λ ph. pure tt)
        nested
        5
        (record a_process { read_buf = arrived }))
unfolding Ios.buffer_size
read_and_dispatch_commands-Dispatched_example =
    read_and_dispatch_commands-Dispatched an_env (λ ph. pure tt) nested 5
      (record a_process { read_buf = arrived }) (λ ph. keeps-Drains an_env (pure-Keeps tt))
      nested-Drains (omega arith) (omega arith)
