-- ===== src/Protocol/Input.antt =====
-- The handlers of version-1/protocol.c and the read buffer, which only the dispatch changes.
use cryptar.Prelude.{
  ℕ, ◌≡◌, ◌≢◌, refl, sym, ap, Bool, Option, none, some, pure-Keeps, get-Keeps, lift-Keeps,
  assert-Keeps, stop-Keeps, >>=-Keeps, if-Keeps, ok-inj, Result, ok, fault, assertion_failed, true,
  false, ◌==◌, if◌then◌else◌,
}
use cryptar.Ios.{IosBuf}
use cryptar.Block.{DbBlock}
use cryptar.Remote.{DbArchive}
use cryptar.Requests.Sending.{send_block_list}
use cryptar.Protocol.{ProtoIds, ProtoData, ProtoHello, ProtoHelloAck}
use cryptar.Protocol.Server.{accept_put_block, accept_get_block, send_bad_get_ack, answer}
use cryptar.Protocol.Client.{
  accept_put_ack, block_stored, list_stored, accept_get_ack, accept_get_ack_block,
  accept_get_ack_block_list, block_got, start, start_archive, start_extract,
}
use cryptar.Protocol.Dispatch.{
  hang_up, receive, Command, hello, hello_ack, bye_packet, put_block, put_block_ack, get_block,
  get_block_ack, unknown,
}
use cryptar.Process.{Env, Process, Proc}
use cryptar.Process.Input.{
  KeepsInput, read_buf-IsOfQueues, changed, with_dbs-Keeps, with_hash-Keeps, io_write_reg-Keeps,
  quit_main_loop-Keeps, send-Keeps, send_bye-Keeps, seal-Keeps,
}
use cryptar.Tickets.{WorkTicket}
use cryptar.Tickets.Registry
use cryptar.Tickets.Registry.{find_ticket, find_block}

ruleset keeps = (
  read_buf-IsOfQueues, >>=-Keeps, if-Keeps, pure-Keeps, get-Keeps, lift-Keeps, assert-Keeps,
  stop-Keeps, with_dbs-Keeps, with_hash-Keeps, io_write_reg-Keeps, send-Keeps, send_bye-Keeps,
  seal-Keeps,
)

module _ (env : Env) where
  insert-KeepsInput : (wt : WorkTicket) → KeepsInput env (Registry.insert env wt)
  unfolding Registry.insert
  insert-KeepsInput wt = changed env (λ p. p.read_buf) λ p. refl

  remove-KeepsInput : (file_id : ℕ) → KeepsInput env (Registry.remove env file_id)
  unfolding Registry.remove
  remove-KeepsInput file_id = changed env (λ p. p.read_buf) λ p. refl

  store-KeepsInput :
      (file_id : ℕ) (wt : WorkTicket) → KeepsInput env (Registry.store env file_id wt)
  store-KeepsInput file_id wt = changed env (λ p. p.read_buf) λ p. refl

  -- The ticket that was found comes with the state as it was.
  found_same :
      (b : Bool) (o : Option WorkTicket) (p : Process env.lib) {wt : WorkTicket}
      {p' : Process env.lib}
      → Path
          (Result (WorkTicket × Process env.lib))
          (if b
            then fault assertion_failed
            else elim o [ none ↦ fault assertion_failed | some wt ↦ ok (wt, p) ])
          (ok (wt, p'))
      → p'.read_buf ≡ p.read_buf
  found_same true o p e = cc
  found_same false none p e = cc
  found_same false (some wt) p e = ap (λ p. p.read_buf) (sym (ok-inj e).1)

  find-KeepsInput : (file_id : ℕ) → KeepsInput env (Registry.find env file_id)
  unfolding Registry.find
  find-KeepsInput file_id = record {
    same = λ p e. found_same (file_id == 0) (find_ticket file_id p.work_list) p e;
  }

  finish-KeepsInput : (wt : WorkTicket) → KeepsInput env (Registry.finish env wt)
  unfolding Registry.finish
  finish-KeepsInput wt = search (keeps, remove-KeepsInput)

  send_block_list-KeepsInput : (wt : WorkTicket) → KeepsInput env (send_block_list env wt)
  unfolding send_block_list
  send_block_list-KeepsInput wt = search keeps

  send_bad_get_ack-KeepsInput : (gb : ProtoIds) → KeepsInput env (send_bad_get_ack env gb)
  unfolding send_bad_get_ack
  send_bad_get_ack-KeepsInput gb = search keeps

  answer-KeepsInput :
      (gb : ProtoIds) (found : Option DbArchive) → KeepsInput env (answer env gb found)
  unfolding answer
  answer-KeepsInput gb none = search send_bad_get_ack-KeepsInput
  answer-KeepsInput gb (some a) = search keeps

  accept_put_block-KeepsInput : (pb : ProtoData) → KeepsInput env (accept_put_block env pb)
  unfolding accept_put_block
  accept_put_block-KeepsInput pb = search keeps

  accept_get_block-KeepsInput : (gb : ProtoIds) → KeepsInput env (accept_get_block env gb)
  unfolding accept_get_block
  accept_get_block-KeepsInput gb = search (keeps, send_bad_get_ack-KeepsInput, answer-KeepsInput)

  block_stored-KeepsInput :
      (pba : ProtoIds) (wt : WorkTicket) (found : Option DbBlock)
      → KeepsInput env (block_stored env pba wt found)
  unfolding block_stored
  block_stored-KeepsInput pba wt none = search keeps
  block_stored-KeepsInput pba wt (some dbb) =
      search (keeps, store-KeepsInput, send_block_list-KeepsInput)

  list_stored-KeepsInput :
      (pba : ProtoIds) (wt : WorkTicket) → KeepsInput env (list_stored env pba wt)
  unfolding list_stored
  list_stored-KeepsInput pba wt = search (keeps, finish-KeepsInput)

  accept_put_ack-KeepsInput : (pba : ProtoIds) → KeepsInput env (accept_put_ack env pba)
  unfolding accept_put_ack
  accept_put_ack-KeepsInput pba =
      search (keeps, find-KeepsInput, list_stored-KeepsInput, block_stored-KeepsInput)

  start_archive-KeepsInput : (wt : WorkTicket) → KeepsInput env (start_archive env wt)
  unfolding start_archive
  start_archive-KeepsInput wt = search keeps depth 9

  start_extract-KeepsInput : (wt : WorkTicket) → KeepsInput env (start_extract env wt)
  unfolding start_extract
  start_extract-KeepsInput wt = search keeps

  start-KeepsInput : (wt : WorkTicket) → KeepsInput env (start env wt)
  start-KeepsInput wt = search (keeps, start_archive-KeepsInput, start_extract-KeepsInput)

  block_got-KeepsInput :
      (gba : ProtoData) (wt : WorkTicket) (dbb : DbBlock)
      → KeepsInput env (block_got env gba wt dbb)
  unfolding block_got
  block_got-KeepsInput gba wt dbb = search (keeps, store-KeepsInput, remove-KeepsInput)

  accept_get_ack_block-KeepsInput :
      (gba : ProtoData) (wt : WorkTicket) (found : Option DbBlock)
      → KeepsInput env (accept_get_ack_block env gba wt found)
  unfolding accept_get_ack_block
  accept_get_ack_block-KeepsInput gba wt none = search keeps
  accept_get_ack_block-KeepsInput gba wt (some dbb) = search (keeps, block_got-KeepsInput)

  accept_get_ack_block_list-KeepsInput :
      (gba : ProtoData) (wt : WorkTicket) → KeepsInput env (accept_get_ack_block_list env gba wt)
  unfolding accept_get_ack_block_list
  accept_get_ack_block_list-KeepsInput gba wt =
      search (keeps, store-KeepsInput, start-KeepsInput) depth 9

  accept_get_ack-KeepsInput : (gba : ProtoData) → KeepsInput env (accept_get_ack env gba)
  unfolding accept_get_ack
  accept_get_ack-KeepsInput gba = search (
    keeps, find-KeepsInput, accept_get_ack_block_list-KeepsInput, accept_get_ack_block-KeepsInput,
  )

module _ (env : Env) (accept_hello : ProtoHello → Proc env (Unit {0}))
    (accept_hello_ack : ProtoHelloAck → Proc env (Unit {0})) where
  hang_up-KeepsInput : KeepsInput env (hang_up env accept_hello accept_hello_ack)
  unfolding hang_up
  hang_up-KeepsInput = search (keeps, quit_main_loop-Keeps)

  -- Only the handlers of a hello and of its answer may touch it.
  pub receive-KeepsInput :
      (cmd : Command) (packet : IosBuf)
      → cmd ≢ hello
      → cmd ≢ hello_ack
      → KeepsInput env (receive env accept_hello accept_hello_ack cmd packet)
  unfolding receive
  receive-KeepsInput hello packet h a = absurd (h refl)
  receive-KeepsInput hello_ack packet h a = absurd (a refl)
  receive-KeepsInput bye_packet packet h a = search (keeps, hang_up-KeepsInput)
  receive-KeepsInput put_block packet h a = search (keeps, accept_put_block-KeepsInput)
  receive-KeepsInput put_block_ack packet h a = search (keeps, accept_put_ack-KeepsInput)
  receive-KeepsInput get_block packet h a = search (keeps, accept_get_block-KeepsInput)
  receive-KeepsInput get_block_ack packet h a = search (keeps, accept_get_ack-KeepsInput)
  receive-KeepsInput unknown packet h a = search keeps
