-- ===== src/Tickets/Uncounted.antt =====
-- `wt_send_block_requests` of version-1/workticket.c and `num_blocks_moved`.
use cryptar.Prelude.{
  ◌+◌, ◌%◌, ◌≡◌, refl, sym, ap, ◌∙◌, Bool-cases, inl, inr, List, [], ◌∷◌, length, drop,
  if◌then◌else◌, ltb, leb, ok, word, pure, run_next-ok, ok-inj, ◌>>=◌,
}
use cryptar.Ios
use cryptar.Block.{DbBlock}
use cryptar.Process.{Env, Process, Proc}
use cryptar.Tickets.{WorkTicket}
use cryptar.Tickets.Work.{
  send_block_requests, request_block, queue_blocks, all_queued, desired_queue_size,
}

module _ (env : Env) where
  request_block-count :
      (dbb : DbBlock) (wt wt' : WorkTicket) (p p' : Process env.lib)
      → request_block env dbb wt p ≡ ok (wt', p')
      → wt'.num_blocks_moved ≡ wt.num_blocks_moved
  unfolding request_block
  request_block-count dbb wt wt' p p' e =
      let (t, s, run, rest) =
        run_next-ok _
          (λ _. pure (record wt { next_block_to_queue = (wt.next_block_to_queue + 1) % word })) e in
      let same = (ok-inj rest).0 in ap (λ w. w.num_blocks_moved) (sym same)

  queue_blocks-count :
      (blocks : List DbBlock) (wt wt' : WorkTicket) (p p' : Process env.lib)
      → queue_blocks env (request_block env) blocks wt p ≡ ok (wt', p')
      → wt'.num_blocks_moved ≡ wt.num_blocks_moved
  unfolding queue_blocks
  queue_blocks-count [] wt wt' p p' e =
      let same = (ok-inj e).0 in ap (λ w. w.num_blocks_moved) (sym same)
  queue_blocks-count (dbb ∷ blocks) wt wt' p p' e =
      elim (Bool-cases (ltb (Ios.buffer_size p.write_buf) desired_queue_size)) [
        | inl t ↦
            let go =
              ap
                (λ b.
                  if b
                  then (request_block env dbb wt >>= queue_blocks env (request_block env) blocks) p
                  else ok (wt, p))
                (sym t)
              ∙ e in
            let (wt1, s, run, rest) =
              run_next-ok (request_block env dbb wt p) (queue_blocks env (request_block env) blocks)
                go in
            let count = request_block-count dbb wt wt1 p s run in
            let count' = queue_blocks-count blocks wt1 wt' s p' rest in count' ∙ count
        | inr f ↦
            let same =
              (ok-inj (
                ap
                  (λ b.
                    if b
                    then (request_block env dbb wt >>= queue_blocks env (request_block env) blocks)
                        p
                    else ok (wt, p))
                  (sym f)
                ∙ e)).0 in
            ap (λ w. w.num_blocks_moved) (sym same)
      ]

  all_queued-count : (wt : WorkTicket) → (all_queued env wt).num_blocks_moved ≡ wt.num_blocks_moved
  all_queued-count wt = elim (Bool-cases (leb (length wt.block_list) wt.next_block_to_queue)) [
    | inl t ↦ rw t refl
    | inr f ↦ rw f refl
  ]

  queued_blocks : WorkTicket → Proc env WorkTicket
  queued_blocks wt = do
    wt' ← queue_blocks env (request_block env) (drop wt.next_block_to_queue wt.block_list) wt
    pure (all_queued env wt')

  -- The blocks that are asked for are not counted.
  pub send_block_requests-count :
      (wt wt' : WorkTicket) (p p' : Process env.lib)
      → send_block_requests env wt p ≡ ok (wt', p')
      → wt'.num_blocks_moved ≡ wt.num_blocks_moved
  unfolding send_block_requests queued_blocks
  send_block_requests-count wt wt' p p' e =
      let (t, s, run, rest) = run_next-ok _ (λ _. queued_blocks wt) e in
      let (wt1, s1, run1, rest1) =
        run_next-ok
          (queue_blocks env (request_block env) (drop wt.next_block_to_queue wt.block_list) wt s)
          (λ w. pure (all_queued env w)) rest in
      let same = (ok-inj rest1).0 in
      ap (λ w. w.num_blocks_moved) (sym same)
      ∙ all_queued-count wt1
      ∙ queue_blocks-count (drop wt.next_block_to_queue wt.block_list) wt wt1 s s1 run1
