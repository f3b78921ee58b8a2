-- ===== src/Protocol/Counting.antt =====
-- `num_blocks_moved` of version-1/workticket.h in an extraction: `wt_send_block_requests` of
-- version-1/workticket.c against `accept_get_ack` of version-1/protocol.c.
use cryptar.Prelude.{
  ℕ, suc, ◌%◌, ◌^◌, ◌≤◌, ◌<◌, ◌≡◌, ◌≢◌, refl, sym, ap, ◌∙◌, subst, arith, Bool, true, false,
  Bool-cases, inl, inr, Option, none, some, List, [], ◌∷◌, length, take, same_bytes, ◌==◌,
  ne→not_==, if◌then◌else◌, Result, ok, sub32, word, pure, lift, run_next, run_next-ok, ok-inj,
  lift-Keeps, ◌>>◌,
}
use cryptar.Ios
use cryptar.Block.{DbBlock}
use cryptar.Process.{Env, Process, Proc, unseal}
use cryptar.Protocol.{ProtoData}
use cryptar.Protocol.Client.{
  accept_get_ack, accept_get_ack_block, accept_get_ack_block_list, block_got, install_block,
  received, settle,
}
use cryptar.Tickets.{WorkTicket}
use cryptar.Tickets.Registry
use cryptar.Tickets.Registry.{find_ticket, find_block, replace_block, replace_ticket, is_for}
use cryptar.Tickets.Registry.Laws.{find_ticket-is_for, find_ticket-replace_ticket, find-run}
use cryptar.Tickets.Uncounted.{send_block_requests-count}
use cryptar.Tickets.Work.{send_block_requests}

module _ (env : Env) where
  -- A ticket of the file that `n` more acknowledgements cannot end.
  pub record IsOpen (file_id n : ℕ) (p : Process env.lib) : Type 0 where
    pub ticket : WorkTicket
    pub listed : find_ticket file_id p.work_list ≡ some ticket
    pub outlives : n ≤ sub32 ticket.num_blocks_moved 1
    pub small : ticket.num_blocks_moved < word

  install_block-open :
      (wt : WorkTicket) (dbb : DbBlock) (bytes : List ℕ)
      → wt.num_blocks_moved ≢ 0
      → ((install_block env wt dbb bytes).1 ≡ false)
        × ((install_block env wt dbb bytes).0.num_blocks_moved ≡ wt.num_blocks_moved)
        × ((install_block env wt dbb bytes).0.dbf ≡ wt.dbf)
  unfolding install_block
  install_block-open wt dbb bytes h =
      elim (Bool-cases (same_bytes (env.sha1 bytes) dbb.strong_checksum)) [
        | inl t ↦ rw (t, ne→not_== wt.num_blocks_moved 0 h) (refl, refl, refl)
        | inr f ↦ rw f (refl, refl, refl)
      ]

  -- The block whose data has come.
  abbrev block_of : DbBlock → List ℕ → DbBlock
  block_of dbb bytes = record dbb { block_acked = true; block_length = length bytes % 2 ^ 16 }

  -- What is left in the work list of a ticket that is not done.
  settle-IsOpen :
      (gba : ProtoData) (dbb : DbBlock) (bytes : List ℕ) (n : ℕ) (p p' : Process env.lib)
      (o : IsOpen gba.file_id (suc n) p)
      → settle env gba.file_id (received env gba o.ticket dbb bytes) p ≡ ok (tt, p')
      → IsOpen gba.file_id n p'
  settle-IsOpen gba dbb bytes n p p' o e =
      let wt : WorkTicket = o.ticket in
      let r : WorkTicket × Bool = received env gba wt dbb bytes in
      let (going, count, of_file) =
        install_block-open
          (record wt {
            num_blocks_moved = sub32 wt.num_blocks_moved 1;
            block_list = replace_block gba.block_id (block_of dbb bytes) wt.block_list;
          })
          (block_of dbb bytes) (take (length bytes % 2 ^ 16) bytes) (omega (arith, o.outlives)) in
      let for_file : is_for gba.file_id r.0 ≡ true =
        ap (λ f. f.file_id == gba.file_id) of_file
        ∙ find_ticket-is_for gba.file_id p.work_list wt o.listed in
      let after : record p { work_list = replace_ticket gba.file_id r.0 p.work_list } ≡ p' =
        (ok-inj (
          ap
            (λ b.
              (if b then Registry.remove env gba.file_id else pure tt)
                (record p { work_list = replace_ticket gba.file_id r.0 p.work_list }))
            (sym going)
          ∙ e)).1 in
      subst (IsOpen gba.file_id n) after (record {
        ticket = r.0;
        listed = find_ticket-replace_ticket gba.file_id p.work_list wt r.0 o.listed for_file;
        outlives = omega (arith, count, o.outlives, o.small);
        small = omega (arith, count);
      })

  block_got-IsOpen :
      (gba : ProtoData) (dbb : DbBlock) (n : ℕ) (p p' : Process env.lib)
      (o : IsOpen gba.file_id (suc n) p)
      → block_got env gba o.ticket dbb p ≡ ok (tt, p')
      → IsOpen gba.file_id n p'
  unfolding block_got
  block_got-IsOpen gba dbb n p p' o e =
      let unsealed : Result Ios.IosBuf = unseal env gba.ios dbb.block_length in
      let (ios2, s, run, rest) =
        run_next-ok (lift unsealed p)
          (λ ios2. settle env gba.file_id (received env gba o.ticket dbb (Ios.unread ios2))) e in
      let same : s ≡ p = (lift-Keeps {f = λ q. q} unsealed).same p run in
      settle-IsOpen gba dbb (Ios.unread ios2) n p p' o (
        ap (settle env gba.file_id (received env gba o.ticket dbb (Ios.unread ios2))) (sym same)
        ∙ rest)

  fewer-IsOpen :
      (file_id n : ℕ) (p : Process env.lib) → IsOpen file_id (suc n) p → IsOpen file_id n p
  fewer-IsOpen file_id n p o = record {
    ticket = o.ticket;
    listed = o.listed;
    outlives = omega (arith, o.outlives);
    small = o.small;
  }

  block_ack-IsOpen :
      (gba : ProtoData) (found : Option DbBlock) (n : ℕ) (p p' : Process env.lib)
      (o : IsOpen gba.file_id (suc n) p)
      → accept_get_ack_block env gba o.ticket found p ≡ ok (tt, p')
      → IsOpen gba.file_id n p'
  unfolding accept_get_ack_block
  block_ack-IsOpen gba none n p p' o e =
      subst (IsOpen gba.file_id n) (ok-inj e).1 (fewer-IsOpen gba.file_id n p o)
  block_ack-IsOpen gba (some dbb) n p p' o e = elim (Bool-cases (Ios.buffer_size gba.ios == 0)) [
    | inl t ↦
        subst (IsOpen gba.file_id n)
          (ok-inj
            (ap (λ b. (if b then pure tt else block_got env gba o.ticket dbb) p) (sym t) ∙ e)).1
          (fewer-IsOpen gba.file_id n p o)
    | inr f ↦
        block_got-IsOpen gba dbb n p p' o
          (ap (λ b. (if b then pure tt else block_got env gba o.ticket dbb) p) (sym f) ∙ e)
  ]

  -- The acknowledgements of blocks of a file, one after the other.
  unfoldable pub accept_all : (file_id : ℕ) → List (ℕ × Ios.IosBuf) → Proc env (Unit {0})
  accept_all file_id [] = pure tt
  accept_all file_id ((block_id, ios) ∷ acks) = do
    accept_get_ack env (record { file_id = file_id; block_id = block_id; ios = ios })
    accept_all file_id acks

  abbrev pub AreOfBlocks : List (ℕ × Ios.IosBuf) → Type 0
  AreOfBlocks [] = Unit
  AreOfBlocks ((block_id, _) ∷ acks) = (0 < block_id) × AreOfBlocks acks

  answered : ProtoData → WorkTicket → Proc env (Unit {0})
  answered gba wt =
      if gba.block_id == 0
      then accept_get_ack_block_list env gba wt
      else accept_get_ack_block env gba wt (find_block wt.block_list gba.block_id)

  accept_get_ack-IsOpen :
      (gba : ProtoData) (n : ℕ) (p p' : Process env.lib)
      → 0 < gba.file_id
      → 0 < gba.block_id
      → IsOpen gba.file_id (suc n) p
      → accept_get_ack env gba p ≡ ok (tt, p')
      → IsOpen gba.file_id n p'
  unfolding accept_get_ack answered
  accept_get_ack-IsOpen gba n p p' pos b o e =
      block_ack-IsOpen gba (find_block o.ticket.block_list gba.block_id) n p p' o (
        ap
          (λ b.
            (if b
                then accept_get_ack_block_list env gba o.ticket
                else accept_get_ack_block env gba o.ticket
                    (find_block o.ticket.block_list gba.block_id))
              p)
          (sym (ne→not_== gba.block_id 0 (omega arith)))
        ∙ sym
            (ap (λ r. run_next r (answered gba)) (find-run env gba.file_id p o.ticket pos o.listed))
        ∙ e)

  accept_all-IsOpen :
      (file_id : ℕ) (acks : List (ℕ × Ios.IosBuf)) (p p' : Process env.lib)
      → 0 < file_id
      → AreOfBlocks acks
      → IsOpen file_id (length acks) p
      → accept_all file_id acks p ≡ ok (tt, p')
      → IsOpen file_id 0 p'
  unfolding accept_all
  accept_all-IsOpen file_id [] p p' pos h o e = subst (IsOpen file_id 0) (ok-inj e).1 o
  accept_all-IsOpen file_id ((block_id, ios) ∷ acks) p p' pos (b, h) o e =
      let gba : ProtoData = record { file_id = file_id; block_id = block_id; ios = ios } in
      let (t, s, run, rest) =
        run_next-ok (accept_get_ack env gba p) (λ _. accept_all file_id acks) e in
      accept_all-IsOpen file_id acks s p' pos h
        (accept_get_ack-IsOpen gba (length acks) p s pos b o run) rest

  -- If requests are sent for a ticket that has counted nothing and that the work list then has for its
  -- file, fewer than 2 ^ 32 acknowledgements of blocks of that file, whatever their data, leave a ticket
  -- of the file in the work list.
  pub accept_all-send_block_requests :
      (wt wt' : WorkTicket) (p p' q q' : Process env.lib) (file_id : ℕ)
      (acks : List (ℕ × Ios.IosBuf))
      → wt.num_blocks_moved ≡ 0
      → send_block_requests env wt p ≡ ok (wt', p')
      → find_ticket file_id q.work_list ≡ some wt'
      → 0 < file_id
      → AreOfBlocks acks
      → length acks < word
      → accept_all file_id acks q ≡ ok (tt, q')
      → (wt'' : WorkTicket) × (find_ticket file_id q'.work_list ≡ some wt'')
  accept_all-send_block_requests wt wt' p p' q q' file_id acks zeroed sent listed pos h few run =
      let none_counted = send_block_requests-count env wt wt' p p' sent in
      let start : IsOpen file_id (length acks) q = record {
        ticket = wt';
        listed = listed;
        outlives = omega (arith, none_counted, zeroed);
        small = omega (arith, none_counted, zeroed);
      } in
      let end_state = accept_all-IsOpen file_id acks q q' pos h start run in
      (end_state.ticket, end_state.listed)
