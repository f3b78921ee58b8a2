-- ===== src/Protocol/Acks.antt =====
-- `accept_put_ack` of version-1/protocol.c: a block, and the block list, that the server has stored.
use cryptar.Prelude.{
  ◌-◌, ◌^◌, ◌<◌, ◌≡◌, ◌≢◌, ◌⊎◌, inl, inr, refl, arith, true, false, Bool-cases, ◌||◌, none, some,
  List, [], ◌∷◌, ◌++◌, Result, ok, pure, if◌then◌else◌, be32, eq→==, ne→not_==, ==_iff,
}
use cryptar.Block.{DbBlock}
use cryptar.Block.Store as Blocks
use cryptar.Summary.{DbSummary}
use cryptar.Summary.Codec.{IsWellTyped, summary_bytes}
use cryptar.Summary.Store as Summaries
use cryptar.Summary.Store.RoundTrip.{summary_fetch-add}
use cryptar.Database.{Handles, summary}
use cryptar.Process
use cryptar.Process.{Env, Process, bye}
use cryptar.Protocol.{ProtoIds}
use cryptar.Protocol.Client.{accept_put_ack, block_stored, list_stored, acked}
use cryptar.Tickets.{WorkTicket, archiving}
use cryptar.Tickets.Registry
use cryptar.Tickets.Registry.{find_ticket, find_block, replace_ticket}
use cryptar.Tickets.Registry.Laws.{
  find_ticket-is_for, find_ticket-replace_ticket, drop_ticket-found, find_block-replace_block,
  find_block-local_id, find-run,
}

-- The summary of a ticket with the archive id of its block list.
abbrev pub listed : ProtoIds → WorkTicket → DbSummary
listed pba wt = record (wt.summary) { block_list_remote_id = pba.archive_id }

module _ (env : Env) where
  -- If a block of an archiving ticket is acknowledged, others are still to be, and the block can be
  -- written to its database, then the ticket of its file counts one block less and has the archive id
  -- with the block, which is acknowledged and written, and nothing else changes.
  pub accept_put_ack-block :
      (pba : ProtoIds) (wt : WorkTicket) (dbb : DbBlock) (p : Process env.lib)
      (h' : Handles env.lib)
      → 0 < pba.file_id
      → 0 < pba.block_id
      → find_ticket pba.file_id p.work_list ≡ some wt
      → wt.action ≡ archiving
      → find_block wt.block_list pba.block_id ≡ some dbb
      → 1 < wt.num_blocks_moved
      → wt.num_blocks_moved < 2 ^ 32
      → Blocks.add env.lib (record dbb { block_acked = true; remote_id = pba.archive_id }) p.dbs
        ≡ ok (tt, h')
      → (wt' : WorkTicket) × (accept_put_ack env pba p
          ≡ ok (tt, record p { work_list = replace_ticket pba.file_id wt' p.work_list; dbs = h' }))
        × (find_ticket pba.file_id (replace_ticket pba.file_id wt' p.work_list) ≡ some wt')
        × (wt'.num_blocks_moved ≡ wt.num_blocks_moved - 1)
        × (find_block wt'.block_list pba.block_id
            ≡ some (record dbb { block_acked = true; remote_id = pba.archive_id }))
  unfolding accept_put_ack block_stored
  accept_put_ack-block pba wt dbb p h' pos b listed e found more less stored = (
    acked pba dbb wt,
    rw
        (
          find-run env pba.file_id p wt pos listed,
          e,
          ne→not_== pba.block_id 0 (omega arith),
          found,
          ne→not_== (acked pba dbb wt).num_blocks_moved 0 (omega arith),
          stored,
        )
        refl,
    find_ticket-replace_ticket pba.file_id p.work_list wt (acked pba dbb wt) listed
        (find_ticket-is_for pba.file_id p.work_list wt listed),
    omega arith,
    find_block-replace_block pba.block_id wt.block_list dbb
        (record dbb { block_acked = true; remote_id = pba.archive_id }) found
        (find_block-local_id pba.block_id wt.block_list dbb found),
  )

  -- What the client does after a ticket has left: it goes on while there are tickets or more to come.
  pub data Followed (rest : List WorkTicket) (p : Process env.lib)
      : Result (Unit {0} × Process env.lib) → Type 0 where
    goes_on : (rest ≢ []) ⊎ (p.more_work ≡ true) → Followed rest p (ok (tt, p))
    says_bye : rest ≡ [] → p.more_work ≡ false → Followed rest p (Process.send_bye env bye p)

  follow :
      (rest : List WorkTicket) (p : Process env.lib)
      → p.work_list ≡ rest
      → Followed rest p (
          (if Registry.more env p || Registry.more_to_come env p
              then pure tt
              else Process.send_bye env bye)
            p)
  follow [] p e = elim (Bool-cases p.more_work) [
    | inl more ↦ simp (e, more) (goes_on (inr more))
    | inr over ↦ simp (e, over) (says_bye refl over)
  ]
  follow (wt ∷ rest) p e = simp e (goes_on (inl λ same. cc))

  -- If the block list of an archiving ticket is acknowledged, its summary has an id and fields that fit
  -- their C types, and Berkeley DB stores the summary with the archive id of the list, then the summary
  -- is fetched with that id afterwards, the first ticket of the file leaves the work list and the others
  -- stay in their order, and the client says goodbye if no ticket is left and none is to come, and else
  -- goes on.
  pub accept_put_ack-list :
      (pba : ProtoIds) (wt : WorkTicket) (p : Process env.lib) (db db' : env.lib.Db)
      → 0 < pba.file_id
      → pba.block_id ≡ 0
      → find_ticket pba.file_id p.work_list ≡ some wt
      → wt.action ≡ archiving
      → IsWellTyped (listed pba wt)
      → 0 < wt.summary.summary_id
      → p.dbs summary ≡ some db
      → env.lib.store db (be32 wt.summary.summary_id) (summary_bytes (listed pba wt)) ≡ some db'
      → (h' : Handles env.lib) × (before after : List WorkTicket) × (Summaries.fetch env.lib
            wt.summary.summary_id h'
          ≡ ok (some (listed pba wt), h'))
        × (p.work_list ≡ before ++ (wt ∷ after))
        × (find_ticket pba.file_id before ≡ none)
        × Followed
            (before ++ after)
            (record p { work_list = before ++ after; dbs = h' })
            (accept_put_ack env pba p)
  unfolding accept_put_ack list_stored Registry.finish Registry.remove
  accept_put_ack-list pba wt p db db' pos b found e w id opened stored =
      let (h', added, fetched) =
        summary_fetch-add env.lib env.server (listed pba wt) p.dbs db db' w id opened stored in
      let (before, after, split, first, dropped) =
        drop_ticket-found pba.file_id p.work_list wt found in
      let same : wt.dbf.file_id ≡ pba.file_id =
        (==_iff wt.dbf.file_id pba.file_id).0
          (find_ticket-is_for pba.file_id p.work_list wt found) in
      (
        h',
        before,
        after,
        fetched,
        split,
        first,
        rw
            (
              find-run env pba.file_id p wt pos found,
              e,
              eq→== pba.block_id 0 b,
              added,
              same,
              dropped,
            )
            (follow (before ++ after) (record p { work_list = before ++ after; dbs = h' }) refl),
      )
