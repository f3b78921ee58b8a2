-- ===== src/Protocol.antt =====
-- version-1/protocol.h and version-1/protocol.c: the packets of the two sides, as they are written
-- and read, and the frame that `io_send_ios` of version-1/io.c puts around each.
--
-- A packet is written to a buffer of its own, and the frame goes to the buffer of bytes to send. What
-- the handlers do with a message that they have read is not modelled here.
pub mod Codec
pub mod HelloAck
pub mod Framing
pub mod Server
pub mod Storing
pub mod Client
pub mod Dispatch
pub mod Arrival
pub mod Acks
pub mod Counting
pub mod Rebuild
pub mod Termination
pub mod Input
pub mod Draining
use cryptar.Prelude.{
  ℕ, ◌+◌, ◌-◌, ◌%◌, ◌^◌, Option, none, some, List, ltb, ◌==◌, not, if◌then◌else◌, Result, fault, ok,
  null_dereference, assertion_failed, State, pure, stop, get, assert, lift, ◌>>=◌, ◌>>◌, take,
}
use cryptar.Ios
use cryptar.Ios.{IosBuf, Stream}

-- `enum proto_command`
abbrev pub cmd_hello : ℕ
cmd_hello = 0

abbrev pub cmd_hello_ack : ℕ
cmd_hello_ack = 1

abbrev pub cmd_bye : ℕ
cmd_bye = 2

abbrev pub cmd_put_block : ℕ
cmd_put_block = 3

abbrev pub cmd_put_block_ack : ℕ
cmd_put_block_ack = 4

abbrev pub cmd_get_block : ℕ
cmd_get_block = 5

abbrev pub cmd_get_block_ack : ℕ
cmd_get_block_ack = 6

pub record ProtoHello : Type 0 where
  pub version : ℕ
  pub archive_id : ℕ
  pub archive_pass : ℕ
  pub create_archive : ℕ
  pub message : Option (List ℕ)

-- `receive_hello_ack` never sets the archive id: the message that it makes has none.
pub record ProtoHelloAck : Type 0 where
  pub version : ℕ
  pub error : ℕ
  pub archive_id : Option ℕ
  pub message : Option (List ℕ)

pub record ProtoBye : Type 0 where
  pub version : ℕ
  pub error : ℕ

-- `ProtoPutBlockAck` and `ProtoGetBlock` have the same fields.
pub record ProtoIds : Type 0 where
  pub file_id : ℕ
  pub block_id : ℕ
  pub archive_id : ℕ

-- `ProtoPutBlock` and `ProtoGetBlockAck` have the same fields.
pub record ProtoData : Type 0 where
  pub file_id : ℕ
  pub block_id : ℕ
  pub ios : IosBuf

-- `ios_append_string` of a pointer that may be NULL.
unfoldable pub append_message : Option (List ℕ) → Stream (Unit {0})
append_message none = stop assertion_failed
append_message (some str) = Ios.append_string str

unfoldable pub send_hello : ProtoHello → Stream (Unit {0})
send_hello h = do
  Ios.append_int8 cmd_hello
  Ios.append_int8 h.version
  Ios.append_int32 h.archive_id
  Ios.append_int32 h.archive_pass
  Ios.append_int8 h.create_archive
  append_message h.message

-- `id` is the archive id that the server answers with.
unfoldable pub send_hello_ack : ProtoHelloAck → (id : ℕ) → Stream (Unit {0})
send_hello_ack ha id = do
  Ios.append_int8 cmd_hello_ack
  Ios.append_int8 ha.version
  Ios.append_int16 ha.error
  Ios.append_int32 id
  append_message ha.message

-- The packet; that input and output end is not part of it.
unfoldable pub send_bye : ProtoBye → Stream (Unit {0})
send_bye b = do Ios.append_int8 cmd_bye; Ios.append_int8 b.version; Ios.append_int16 b.error

-- `send_put_block` and `send_get_ack`
unfoldable pub send_data : (cmd : ℕ) → ProtoData → Stream (Unit {0})
send_data cmd pb = do
  Ios.append_int8 cmd
  Ios.append_int32 pb.file_id
  Ios.append_int32 pb.block_id
  Ios.append_int32 (Ios.buffer_size pb.ios)
  Ios.append_ios pb.ios

unfoldable pub send_ids : (cmd : ℕ) → ProtoIds → Stream (Unit {0})
send_ids cmd pba = do
  Ios.append_int8 cmd
  Ios.append_int32 pba.file_id
  Ios.append_int32 pba.block_id
  Ios.append_int32 pba.archive_id

unfoldable pub send_put_ack : ProtoIds → Stream (Unit {0})
unfolding send_ids
send_put_ack pba = send_ids cmd_put_block_ack pba

unfoldable pub send_get_block : ProtoIds → Stream (Unit {0})
unfolding send_ids
send_get_block pg = do
  assert (not (pg.file_id == 0))
  assert (not (pg.archive_id == 0))
  send_ids cmd_get_block pg

-- `buf = ios_read(ios, 1); g_assert(buf[0] == cmd);`
unfoldable pub expect_command : ℕ → Stream (Unit {0})
expect_command cmd = do c ← Ios.read_byte; assert (c == cmd)

unfoldable pub receive_hello : Stream ProtoHello
receive_hello = do
  expect_command cmd_hello
  version ← Ios.read_byte
  archive_id ← Ios.read_int32
  archive_pass ← Ios.read_int32
  create_archive ← Ios.read_byte
  message ← Ios.read_str
  pure (record {
    version = version;
    archive_id = archive_id;
    archive_pass = archive_pass;
    create_archive = create_archive;
    message = message;
  })

unfoldable pub receive_hello_ack : Stream ProtoHelloAck
receive_hello_ack = do
  expect_command cmd_hello_ack
  version ← Ios.read_byte
  error ← Ios.read_int16
  message ← Ios.read_str
  pure (record { version = version; error = error; archive_id = none; message = message })

unfoldable pub receive_bye : Stream ProtoBye
receive_bye = do
  expect_command cmd_bye
  version ← Ios.read_byte
  error ← Ios.read_int16
  pure (record { version = version; error = error })

-- `receive_put_block` and `receive_get_ack`; the pointer of `ios_read` goes into `ios_set_buffer`,
-- whose copy of no bytes reads nothing.
receive_rest : ℕ → ℕ → ℕ → Stream ProtoData
receive_rest file_id block_id n = do
  p ← Ios.read n
  bytes ← Ios.copy_from n p
  ios ← lift (Ios.buffer_of bytes)
  pure (record { file_id = file_id; block_id = block_id; ios = ios })

unfoldable pub receive_data : (cmd : ℕ) → Stream ProtoData
unfolding receive_rest
receive_data cmd = do
  expect_command cmd
  file_id ← Ios.read_int32
  block_id ← Ios.read_int32
  n ← Ios.read_int32
  receive_rest file_id block_id n

unfoldable pub receive_ids : Stream ProtoIds
receive_ids = do
  file_id ← Ios.read_int32
  block_id ← Ios.read_int32
  archive_id ← Ios.read_int32
  pure (record { file_id = file_id; block_id = block_id; archive_id = archive_id })

-- The assertion of `receive_put_ack` is an assignment to the byte that it has read, and accepts any.
unfoldable pub receive_put_ack : Stream ProtoIds
unfolding receive_ids
receive_put_ack = do Ios.read_byte; receive_ids

unfoldable pub receive_get_block : Stream ProtoIds
unfolding receive_ids
receive_get_block = do expect_command cmd_get_block; receive_ids

-- `io_send_ios` while output is not ignored, on the buffer of bytes to send.
unfoldable pub io_send_ios : IosBuf → Stream (Unit {0})
io_send_ios ios = do
  Ios.append_int32 (Ios.buffer_size ios)
  bytes ← (elim (Ios.buffer ios) [
    | none ↦ pure (Ios.unread ios)
    | some p ↦ Ios.copy_from (Ios.buffer_size ios) (some p)
  ])
  Ios.append bytes

-- The start of `read_and_dispatch_one_command`: the command and the packet, `none` where the
-- function returns 1 since the packet has not arrived in full.
unfoldable pub read_packet : Stream (Option (ℕ × IosBuf))
read_packet = do
  n ← Ios.read_int32
  assert (not (n == 0))
  bytes ← Ios.read_bytes n
  packet ← lift (Ios.buffer_of bytes)
  cmd ← lift (Ios.parsed (Ios.copy_from 1 (Ios.at packet 0) >>= Ios.first) packet)
  pure (some (cmd, packet))

-- The second test of the function, with the length that is in front.
unfoldable pub read_if_full : ℕ → Stream (Option (ℕ × IosBuf))
unfolding read_packet
read_if_full n ios = if ltb (Ios.buffer_size ios - 4) n then ok (none, ios) else read_packet ios

unfoldable pub next_packet : Stream (Option (ℕ × IosBuf))
unfolding read_if_full
next_packet ios =
    if ltb (Ios.buffer_size ios) 5 then ok (none, ios) else (Ios.int32_at 0 >>= read_if_full) ios
