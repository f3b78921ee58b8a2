-- ===== src/Tickets/Registry.antt =====
-- version-1/workticket.c: the work list.
--
-- A pointer to a ticket comes from `wt_find`, which gives the first ticket of a file in the list, so an
-- operation on that pointer is one on the first ticket of the file.
pub mod Laws
use cryptar.Prelude.{
  ℕ, Bool, true, false, not, Option, none, some, List, [], ◌∷◌, ◌++◌, ltb, ◌==◌, if◌then◌else◌,
  length, Result, ok, fault, assertion_failed, State, pure, get, put, ◌>>=◌, ◌>>◌,
}
use cryptar.Block.{DbBlock}
use cryptar.Summary.Store as Summaries
use cryptar.Tickets.{WorkTicket}
use cryptar.Process.{Env, Process, Proc, with_dbs}

-- `find_wt_by_file_id`
abbrev pub is_for : ℕ → WorkTicket → Bool
is_for file_id wt = wt.dbf.file_id == file_id

abbrev pub find_ticket : ℕ → List WorkTicket → Option WorkTicket
find_ticket file_id [] = none
find_ticket file_id (wt ∷ wts) = if is_for file_id wt then some wt else find_ticket file_id wts

-- What is behind the pointer after a change.
abbrev pub replace_ticket : ℕ → WorkTicket → List WorkTicket → List WorkTicket
replace_ticket file_id wt' [] = []
replace_ticket file_id wt' (wt ∷ wts) =
    if is_for file_id wt then wt' ∷ wts else wt ∷ replace_ticket file_id wt' wts

abbrev pub drop_ticket : ℕ → List WorkTicket → List WorkTicket
drop_ticket file_id [] = []
drop_ticket file_id (wt ∷ wts) = if is_for file_id wt then wts else wt ∷ drop_ticket file_id wts

-- `wt_find_block`; an array entry is never NULL.
abbrev pub find_block : List DbBlock → ℕ → Option DbBlock
find_block [] block_id = none
find_block (dbb ∷ blocks) block_id =
    if dbb.local_id == block_id then some dbb else find_block blocks block_id

-- The array after a change of the block that `wt_find_block` gives.
abbrev pub replace_block : ℕ → DbBlock → List DbBlock → List DbBlock
replace_block block_id dbb' [] = []
replace_block block_id dbb' (dbb ∷ blocks) =
    if dbb.local_id == block_id then dbb' ∷ blocks else dbb ∷ replace_block block_id dbb' blocks

abbrev is_empty {ℓ} : {A : Type ℓ} → List A → Bool
is_empty [] = true
is_empty (_ ∷ _) = false

module _ (env : Env) where
  unfoldable pub insert : WorkTicket → Proc env (Unit {0})
  insert wt p = ok (tt, record p { work_list = p.work_list ++ (wt ∷ []); output_watched = true })

  unfoldable pub remove : ℕ → Proc env (Unit {0})
  remove file_id p = ok (tt, record p { work_list = drop_ticket file_id p.work_list })

  abbrev pub store : ℕ → WorkTicket → Proc env (Unit {0})
  store file_id wt p = ok (tt, record p { work_list = replace_ticket file_id wt p.work_list })

  abbrev pub more : Process env.lib → Bool
  more p = not (is_empty p.work_list)

  abbrev pub more_to_come : Process env.lib → Bool
  more_to_come p = p.more_work

  unfoldable pub working : Bool → Proc env (Unit {0})
  working x p = ok (tt, record p { more_work = x })

  -- A ticket that is missing stops the program: no caller sees NULL.
  unfoldable pub find : ℕ → Proc env WorkTicket
  find file_id p =
      if file_id == 0 then fault assertion_failed else elim (find_ticket file_id p.work_list) [
        | none ↦ fault assertion_failed
        | some wt ↦ ok (wt, p)
      ]

  unfoldable pub finish : WorkTicket → Proc env (Unit {0})
  finish wt = do with_dbs env (Summaries.add env.lib env.server wt.summary); remove wt.dbf.file_id

  -- WT_MAX_QUEUE_SIZE is 20.
  abbrev pub queue_full : Process env.lib → Bool
  queue_full p = ltb 20 (length p.work_list)
