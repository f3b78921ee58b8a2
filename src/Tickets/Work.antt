-- ===== src/Tickets/Work.antt =====
-- version-1/workticket.c: the work on the tickets, `wt_process_queue`, `wt_do_work`, `wt_send_blocks` and
-- `wt_send_block_requests`. The `ios` that they are given is the write buffer of the process.
use cryptar.Prelude.{
  ℕ, zero, suc, ◌+◌, ◌%◌, Bool, ◌&&◌, not, none, List, [], ◌∷◌, ltb, leb, ◌==◌, if◌then◌else◌,
  length, drop, ok, word, pure, get, put, lift, assert, ◌>>=◌, ◌>>◌,
}
use cryptar.Ios
use cryptar.Block.{DbBlock}
use cryptar.Covering.Update.{fill_block}
use cryptar.Protocol
use cryptar.Process
use cryptar.Process.{Env, Process, Proc}
use cryptar.Tickets.{
  WorkTicket, Status, sending_blocks, sending_block_requests, awaiting_block_confirms, is_archiving,
}

-- Roughly how much data the write buffer should hold.
abbrev pub desired_queue_size : ℕ
desired_queue_size = 8192

abbrev pub replace_at : ℕ → DbBlock → List DbBlock → List DbBlock
replace_at n dbb' [] = []
replace_at zero dbb' (dbb ∷ blocks) = dbb' ∷ blocks
replace_at (suc n) dbb' (dbb ∷ blocks) = dbb ∷ replace_at n dbb' blocks

-- The block is in the new cover and not yet in the remote store.
abbrev pub is_to_send : DbBlock → Bool
is_to_send dbb = dbb.in_new_cover && dbb.remote_id == 0

module _ (env : Env) where
  -- The data of the block is freed once it is sent.
  unfoldable pub send_block : DbBlock → WorkTicket → Proc env WorkTicket
  send_block dbb wt = do
    filled ← lift (fill_block env.sha1 wt.file dbb)
    ios ← lift (Ios.written (Ios.copy_from filled.block_length filled.payload >>= Ios.append))
    sealed ← Process.seal env (Ios.unread ios)
    Process.send env (
        Protocol.send_data Protocol.cmd_put_block
          (record { file_id = wt.dbf.file_id; block_id = filled.local_id; ios = sealed }))
    pure (record wt {
      num_blocks_moved = (wt.num_blocks_moved + 1) % word;
      block_list =
          replace_at wt.next_block_to_queue (record filled { payload = none }) wt.block_list;
    })

  -- A round of the loop of `wt_send_blocks` for the next block.
  unfoldable pub queue_block : DbBlock → WorkTicket → Proc env WorkTicket
  queue_block dbb wt = (if is_to_send dbb then send_block dbb wt else pure wt) >>= λ wt'.
      pure (record wt' { next_block_to_queue = (wt.next_block_to_queue + 1) % word })

  -- A round of the loop of `wt_send_block_requests`; the blocks that are asked for are not counted.
  unfoldable pub request_block : DbBlock → WorkTicket → Proc env WorkTicket
  request_block dbb wt = do
    Process.send env (
        Protocol.send_get_block (record {
          file_id = wt.dbf.file_id;
          block_id = dbb.local_id;
          archive_id = dbb.remote_id;
        }))
    pure (record wt { next_block_to_queue = (wt.next_block_to_queue + 1) % word })

  -- The `while` loops, over the blocks from `next_block_to_queue` on.
  unfoldable pub queue_blocks :
      (DbBlock → WorkTicket → Proc env WorkTicket) → List DbBlock → WorkTicket → Proc env WorkTicket
  queue_blocks round [] wt p = ok (wt, p)
  queue_blocks round (dbb ∷ blocks) wt p =
      if ltb (Ios.buffer_size p.write_buf) desired_queue_size
      then (round dbb wt >>= queue_blocks round blocks) p
      else ok (wt, p)

  -- The end of both functions.
  abbrev pub all_queued : WorkTicket → WorkTicket
  all_queued wt =
      if leb (length wt.block_list) wt.next_block_to_queue
      then record wt { status = awaiting_block_confirms }
      else wt

  unfoldable pub send_blocks : WorkTicket → Proc env WorkTicket
  send_blocks wt = do
    wt' ← queue_blocks queue_block (drop wt.next_block_to_queue wt.block_list) wt
    pure (all_queued wt')

  unfoldable pub send_block_requests : WorkTicket → Proc env WorkTicket
  send_block_requests wt = do
    assert (not (is_archiving wt.action))
    wt' ← queue_blocks request_block (drop wt.next_block_to_queue wt.block_list) wt
    pure (all_queued wt')

  -- The `switch` of `wt_do_work`.
  unfoldable pub work_on : Status → WorkTicket → Proc env WorkTicket
  work_on sending_blocks wt = send_blocks wt
  work_on sending_block_requests wt = send_block_requests wt
  work_on _ wt = pure wt

  unfoldable pub do_work : WorkTicket → Proc env WorkTicket
  do_work wt p =
      if ltb desired_queue_size (Ios.buffer_size p.write_buf)
      then ok (wt, p)
      else work_on wt.status wt p

  -- `g_slist_foreach`: the tickets as they are afterwards.
  unfoldable pub work_through : List WorkTicket → Proc env (List WorkTicket)
  work_through [] = pure []
  work_through (wt ∷ wts) = do wt' ← do_work wt; wts' ← work_through wts; pure (wt' ∷ wts')

  unfoldable pub process_queue : Proc env (Unit {0})
  process_queue = do
    p ← get
    wts ← work_through p.work_list
    q ← get
    put (record q { work_list = wts })
