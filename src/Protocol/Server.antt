-- ===== src/Protocol/Server.antt =====
-- version-1/protocol.c: what the server does with a block that is put and with one that is asked for.
use cryptar.Prelude.{Option, none, some, ◌==◌, if◌then◌else◌, ◌>>=◌}
use cryptar.Ios
use cryptar.Ios.{IosBuf}
use cryptar.Remote
use cryptar.Remote.{DbArchive}
use cryptar.Protocol
use cryptar.Protocol.{ProtoIds, ProtoData}
use cryptar.Process
use cryptar.Process.{Env, Proc, with_dbs}

module _ (env : Env) where
  unfoldable pub accept_put_block : ProtoData → Proc env (Unit {0})
  accept_put_block pb = do
    id ←
        with_dbs env
          (Remote.add env.lib env.server (record { archive_id = 0; version = 0; ios = pb.ios }))
    Process.send env (
        Protocol.send_put_ack
          (record { file_id = pb.file_id; block_id = pb.block_id; archive_id = id }))

  abbrev pub send_get_ack : ProtoIds → IosBuf → Proc env (Unit {0})
  send_get_ack gb ios = Process.send env (
      Protocol.send_data Protocol.cmd_get_block_ack
        (record { file_id = gb.file_id; block_id = gb.block_id; ios = ios }))

  -- No data: the client will understand.
  unfoldable pub send_bad_get_ack : ProtoIds → Proc env (Unit {0})
  send_bad_get_ack gb = send_get_ack gb Ios.new

  -- The answer, with what `db_archive_fetch` gave.
  unfoldable pub answer : ProtoIds → Option DbArchive → Proc env (Unit {0})
  answer gb none = send_bad_get_ack gb
  answer gb (some a) = send_get_ack gb a.ios

  unfoldable pub accept_get_block : ProtoIds → Proc env (Unit {0})
  accept_get_block gb =
      if gb.archive_id == 0
      then send_bad_get_ack gb
      else (with_dbs env (Remote.fetch env.lib gb.archive_id) >>= answer gb)
