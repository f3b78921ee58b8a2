-- ===== src/Tickets/Waiting.antt =====
-- `wt_process_queue` of version-1/workticket.c, where the tickets have no block to send.
use cryptar.Prelude.{
  ℕ, zero, suc, ◌≤◌, ◌<◌, ◌≡◌, ◌⊎◌, false, List, [], ◌∷◌, length, drop, word, pure, ◌>>◌,
}
use cryptar.Ios
use cryptar.Block.{DbBlock}
use cryptar.Process.{Env, Process, Proc}
use cryptar.Tickets.{WorkTicket, Status, sending_blocks, awaiting_block_confirms}
use cryptar.Tickets.Work.{is_to_send, process_queue}

abbrev pub NoneToSend : List DbBlock → Type 0
NoneToSend [] = Unit
NoneToSend (dbb ∷ blocks) = (is_to_send dbb ≡ false) × NoneToSend blocks

-- An archiving ticket without a block that is still to be sent, and with none on its way: no
-- acknowledgement is to come for it.
pub record IsQuiet (wt : WorkTicket) : Type 0 where
  pub archives : (wt.status ≡ sending_blocks) ⊎ (wt.status ≡ awaiting_block_confirms)
  pub none_moved : wt.num_blocks_moved ≡ 0
  pub in_list : wt.next_block_to_queue ≤ length wt.block_list
  pub short : length wt.block_list < word
  pub none_to_send : NoneToSend (drop wt.next_block_to_queue wt.block_list)

-- The ticket after the queue was processed: if its blocks were to be sent, it waits for confirmations.
abbrev pub settled_as : Status → WorkTicket → WorkTicket
settled_as sending_blocks wt = record wt {
  status = awaiting_block_confirms;
  next_block_to_queue = length wt.block_list;
}
settled_as _ wt = wt

abbrev pub settled : WorkTicket → WorkTicket
settled wt = settled_as wt.status wt

abbrev pub AreQuiet : List WorkTicket → Type 0
AreQuiet [] = Unit
AreQuiet (wt ∷ wts) = IsQuiet wt × AreQuiet wts

module _ (env : Env) where
  -- The queue is processed again and again.
  unfoldable pub rounds : ℕ → Proc env (Unit {0})
  rounds zero = pure tt
  rounds (suc n) = process_queue env >> rounds n
