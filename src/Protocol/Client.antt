-- ===== src/Protocol/Client.antt =====
-- version-1/protocol.c: what the client does with an acknowledgement and with a block that it gets, and
-- how it goes on with a block list that it has asked for.
--
-- The old block list that `accept_get_ack_block_list` frees is gone; a file that is written is
-- extended by zeros where a block starts behind its end.
use cryptar.Prelude.{
  ℕ, ◌+◌, ◌-◌, ◌%◌, ◌^◌, Bool, true, false, ◌&&◌, ◌||◌, Option, none, some, List, ◌++◌, ltb, ◌==◌,
  if◌then◌else◌, length, take, drop, same_bytes, assertion_failed, sub32, pure, stop, get, lift,
  assert, ◌>>=◌, ◌>>◌,
}
use cryptar.Ios
use cryptar.Ios.{IosBuf}
use cryptar.Block.{DbBlock}
use cryptar.Block.Store as Blocks
use cryptar.Covering.Update.{update_remote, save_local}
use cryptar.Requests
use cryptar.Requests.Sending.{send_block_list}
use cryptar.Encryption.{zeros}
use cryptar.Protocol.{ProtoIds, ProtoData}
use cryptar.Process
use cryptar.Process.{Env, Process, Proc, with_dbs, with_hash, bye}
use cryptar.Tickets.{
  WorkTicket, awaiting_block_list_confirm, sending_blocks, sending_block_requests, is_archiving,
  awaits_confirms,
}
use cryptar.Tickets.Registry
use cryptar.Tickets.Registry.{find_block, replace_block}

-- A block that the server has stored, in its ticket.
abbrev pub acked : ProtoIds → DbBlock → WorkTicket → WorkTicket
acked pba dbb wt = record wt {
  num_blocks_moved = sub32 wt.num_blocks_moved 1;
  block_list =
      replace_block pba.block_id (record dbb { block_acked = true; remote_id = pba.archive_id })
        wt.block_list;
}

-- `fseek` and `fwrite`, which does not touch the file where there is nothing to write.
unfoldable pub write_at : List ℕ → (offset : ℕ) → List ℕ → List ℕ
write_at file offset bytes =
    if length bytes == 0
    then file
    else (take offset file
        ++ (zeros (offset - length file) ++ (bytes ++ drop (offset + length bytes) file)))

module _ (env : Env) where
  abbrev send_list : WorkTicket → Proc env WorkTicket
  send_list wt =
      send_block_list env wt >>= λ sent. pure (record sent { status = awaiting_block_list_confirm })

  -- The branch of `accept_put_ack` for a block; one that is not found is only warned of.
  unfoldable pub block_stored : ProtoIds → WorkTicket → Option DbBlock → Proc env (Unit {0})
  block_stored pba wt none = pure tt
  block_stored pba wt (some dbb) = do
    let wt' = acked pba dbb wt
    wt'' ←
        (if wt'.num_blocks_moved == 0 && awaits_confirms wt.status then send_list wt' else pure wt')
    Registry.store env pba.file_id wt''
    with_dbs env
        (Blocks.add env.lib (record dbb { block_acked = true; remote_id = pba.archive_id }))

  -- The branch for a block list.
  unfoldable pub list_stored : ProtoIds → WorkTicket → Proc env (Unit {0})
  list_stored pba wt = do
    Registry.finish env
        (record wt { summary = record (wt.summary) { block_list_remote_id = pba.archive_id } })
    p ← get
    if Registry.more env p || Registry.more_to_come env p then pure tt else Process.send_bye env bye

  unfoldable pub accept_put_ack : ProtoIds → Proc env (Unit {0})
  accept_put_ack pba = do
    wt ← Registry.find env pba.file_id
    assert (is_archiving wt.action)
    if pba.block_id == 0
        then list_stored pba wt
        else block_stored pba wt (find_block wt.block_list pba.block_id)

  -- `install_block`: the ticket with the file written, and whether the ticket is done.
  unfoldable pub install_block : WorkTicket → DbBlock → List ℕ → WorkTicket × Bool
  install_block wt dbb bytes =
      if same_bytes (env.sha1 bytes) dbb.strong_checksum
      then (
        record wt { file = write_at wt.file dbb.offset bytes },
        wt.num_blocks_moved == 0 && awaits_confirms wt.status,
      )
      else (wt, false)

  -- The ticket after the data of a block has come, and whether it is done; the data is freed again.
  abbrev pub received : ProtoData → WorkTicket → DbBlock → List ℕ → WorkTicket × Bool
  received gba wt dbb bytes =
      let got = record dbb { block_acked = true; block_length = length bytes % 2 ^ 16 } in
      install_block
        (record wt {
          num_blocks_moved = sub32 wt.num_blocks_moved 1;
          block_list = replace_block gba.block_id got wt.block_list;
        })
        got (take (length bytes % 2 ^ 16) bytes)

  abbrev pub settle : ℕ → WorkTicket × Bool → Proc env (Unit {0})
  settle file_id (wt, done) = do
    Registry.store env file_id wt
    if done then Registry.remove env file_id else pure tt

  unfoldable pub block_got : ProtoData → WorkTicket → DbBlock → Proc env (Unit {0})
  block_got gba wt dbb = do
    ios2 ← lift (Process.unseal env gba.ios dbb.block_length)
    settle gba.file_id (received gba wt dbb (Ios.unread ios2))

  -- `accept_get_ack_block`; without data, or for a block that is not in the list, it only warns.
  unfoldable pub accept_get_ack_block :
      ProtoData → WorkTicket → Option DbBlock → Proc env (Unit {0})
  accept_get_ack_block gba wt none = pure tt
  accept_get_ack_block gba wt (some dbb) =
      if Ios.buffer_size gba.ios == 0 then pure tt else block_got gba wt dbb

  -- `wt_assert`, of what can fail in a ticket of the work list.
  abbrev assert_ticket : WorkTicket → Proc env (Unit {0})
  assert_ticket wt = assert (ltb wt.next_block_to_queue (length wt.block_list))

  unfoldable pub start_archive : WorkTicket → Proc env WorkTicket
  start_archive wt = do
    assert_ticket wt
    covered ← with_hash env (
        update_remote env.sort env.sha1 wt.file env.block_length wt.summary.file_length
          wt.block_list)
    saved ← with_dbs env (save_local env.lib env.server covered)
    Process.io_write_reg env
    pure (record wt { block_list = saved; status = sending_blocks; next_block_to_queue = 0 })

  unfoldable pub start_extract : WorkTicket → Proc env WorkTicket
  start_extract wt = do
    assert_ticket wt
    Process.io_write_reg env
    pure (record wt { status = sending_block_requests })

  -- `g_error` stops a process that neither archives nor extracts.
  abbrev pub start : WorkTicket → Proc env WorkTicket
  start wt =
      if env.backup
      then start_archive wt
      else if env.extract
      then start_extract wt
      else stop assertion_failed

  unfoldable pub accept_get_ack_block_list : ProtoData → WorkTicket → Proc env (Unit {0})
  accept_get_ack_block_list gba wt =
      if Ios.buffer_size gba.ios == 0
      then pure tt
      else (lift (Process.unseal env gba.ios wt.summary.block_list_length) >>= λ ios.
          lift (Ios.parsed Requests.block_list_from_stream ios) >>= λ blocks.
          start (record wt { block_list = blocks }) >>= λ started.
          Registry.store env gba.file_id started)

  unfoldable pub accept_get_ack : ProtoData → Proc env (Unit {0})
  accept_get_ack gba = do
    wt ← Registry.find env gba.file_id
    if gba.block_id == 0
        then accept_get_ack_block_list gba wt
        else accept_get_ack_block gba wt (find_block wt.block_list gba.block_id)
