-- ===== src/Requests/Sending.antt =====
-- version-1/requests.c: asking for a block list and sending one.
use cryptar.Prelude.{length, pure, lift, ◌>>=◌, ◌>>◌}
use cryptar.Ios
use cryptar.Ios.{IosBuf}
use cryptar.Requests
use cryptar.Protocol
use cryptar.Process
use cryptar.Process.{Env, Proc}
use cryptar.Tickets.{WorkTicket}

module _ (env : Env) where
  unfoldable pub request_block_list : WorkTicket → Proc env (Unit {0})
  request_block_list wt = Process.send env (
      Protocol.send_get_block (record {
        file_id = wt.dbf.file_id;
        block_id = 0;
        archive_id = wt.summary.block_list_remote_id;
      }))

  -- The ticket with its summary as it is afterwards.
  unfoldable pub send_block_list : WorkTicket → Proc env WorkTicket
  send_block_list wt = do
    ios ← lift (Ios.written (Requests.block_list_to_stream wt.block_list))
    let bytes = Ios.unread ios
    sealed ← Process.seal env bytes
    Process.send env (
        Protocol.send_data Protocol.cmd_put_block
          (record { file_id = wt.summary.file_id; block_id = 0; ios = sealed }))
    pure (record wt {
      summary = record (wt.summary) {
        block_list_sha1 = env.sha1 bytes;
        block_list_length = length bytes;
      };
    })
