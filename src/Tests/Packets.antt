-- ===== src/Tests/Packets.antt =====
-- Packets and records in streams at concrete inputs.
use cryptar.Prelude.{◌≡◌, refl, none, some, List, [], ◌∷◌, ok, arith, inr}
use cryptar.Ios
use cryptar.Ios.{IosBuf}
use cryptar.Ios.Valid.{new-IsValid, contents}
use cryptar.Block.{DbBlock}
use cryptar.Requests.{block_list_to_stream, block_list_from_stream}
use cryptar.Requests.Codec.{AllWellTyped, stored_all, block_list_from_stream-block_list_to_stream}
use cryptar.Remote.{DbArchive}
use cryptar.Protocol.{
  io_send_ios, next_packet, ProtoHello, ProtoHelloAck, ProtoIds, send_hello_ack, receive_hello_ack,
}
use cryptar.Protocol.Codec.{IsHello}
use cryptar.Protocol.Framing.{next_packet-io_send_ios}
use cryptar.Protocol.HelloAck.{IsAnswer, without_text, receive_hello_ack-send_hello_ack}
use cryptar.Tests.{block_at, block_at-IsWellTyped}

abbrev two_blocks : List DbBlock
two_blocks = block_at 8 ∷ block_at 8 ∷ []

two_blocks-AllWellTyped : AllWellTyped two_blocks
two_blocks-AllWellTyped =
    (block_at-IsWellTyped, omega arith, (block_at-IsWellTyped, omega arith, tt))

block_list_example :
    (r r' : IosBuf) × (block_list_to_stream two_blocks Ios.new ≡ ok (tt, r))
    × (block_list_from_stream r ≡ ok (stored_all two_blocks, r'))
block_list_example =
    block_list_from_stream-block_list_to_stream two_blocks two_blocks-AllWellTyped new-IsValid refl
      (omega arith)

abbrev an_archive : DbArchive
an_archive = record {
  archive_id = 4;
  version = 1;
  ios = record { buf = 7 ∷ 8 ∷ []; len = 2; read_ptr = 0; alloc_len = 1024 };
}

abbrev hello : ProtoHello
hello = record {
  version = 1;
  archive_id = 2;
  archive_pass = 3;
  create_archive = 0;
  message = some (104 ∷ 105 ∷ []);
}

hello-IsHello : IsHello hello (104 ∷ 105 ∷ [])
hello-IsHello = record {
  version = omega arith;
  archive_id = omega arith;
  archive_pass = omega arith;
  create_archive = omega arith;
  message = refl;
  terminated = omega arith;
  some_text = omega arith;
  short = omega arith;
}

abbrev ids : ProtoIds
ids = record { file_id = 1; block_id = 0; archive_id = 70000 }

abbrev answer : ProtoHelloAck
answer = record { version = 1; error = 0; archive_id = none; message = some (104 ∷ 105 ∷ []) }

answer-IsAnswer : IsAnswer answer (104 ∷ 105 ∷ [])
answer-IsAnswer = record {
  version = omega arith;
  error = omega arith;
  message = refl;
  short = omega arith;
}

receive_hello_ack-send_hello_ack_example :
    (r r' : IosBuf) × (send_hello_ack answer 70000 Ios.new ≡ ok (tt, r))
    × (receive_hello_ack r ≡ ok (without_text answer, r'))
receive_hello_ack-send_hello_ack_example =
    receive_hello_ack-send_hello_ack answer (104 ∷ 105 ∷ []) 70000 answer-IsAnswer
      (inr (omega arith)) (omega arith) new-IsValid refl (omega arith)

abbrev packet_bytes : IosBuf
packet_bytes = record { buf = 2 ∷ 1 ∷ 0 ∷ 0 ∷ []; len = 4; read_ptr = 0; alloc_len = 1024 }

next_packet-io_send_ios_example :
    (r r' packet : IosBuf) × (io_send_ios packet_bytes Ios.new ≡ ok (tt, r))
    × (next_packet r ≡ ok (some (2, packet), r'))
    × (contents packet ≡ contents packet_bytes)
next_packet-io_send_ios_example =
    next_packet-io_send_ios 2 (1 ∷ 0 ∷ 0 ∷ []) (omega arith) refl (omega arith) new-IsValid refl
      (omega arith)
