-- ===== src/Tickets.antt =====
-- version-1/workticket.h: a work ticket, the note of what is still to be done for one file.
pub mod Registry
pub mod Work
pub mod Waiting
pub mod Uncounted
use cryptar.Prelude.{ℕ, Bool, true, false, List}
use cryptar.Block.{DbBlock}
use cryptar.Filename.{DbFile}
use cryptar.Summary.{DbSummary}

-- `enum wt_actions`
pub data Action : Type 0 where
  archiving extracting : Action

-- `enum wt_status`
pub data Status : Type 0 where
  new_ticket awaiting_block_list sending_blocks sending_block_requests awaiting_block_confirms
        awaiting_block_list_confirm :
      Status

-- `sig` is a summary and a block list. `file` is what is behind `fp`: the file that is read when
-- archiving, the one that is written when extracting.
pub record WorkTicket : Type 0 where
  pub dbf : DbFile
  pub summary : DbSummary
  pub block_list : List DbBlock
  pub num_blocks_moved : ℕ
  pub next_block_to_queue : ℕ
  pub status : Status
  pub file : List ℕ
  pub action : Action

abbrev pub is_archiving : Action → Bool
is_archiving archiving = true
is_archiving extracting = false

abbrev pub awaits_confirms : Status → Bool
awaits_confirms awaiting_block_confirms = true
awaits_confirms _ = false
