-- ===== src/Rewrite/Communicator/Threads/Invariant.antt =====
-- What the two threads of src/communicate.cpp keep true together.
use cryptar.Prelude.{
  ℕ, Bool, true, false, ◌≡◌, ◌≢◌, ◌<◌, refl, ap, sym, ◌∙◌, List, [], ◌++◌, ◌∷◌, drop, arith,
  append_assoc, append-nil, take-append-drop, drop-nil, ap₂,
}
use cryptar.Rewrite.Block.{Transport}
use cryptar.Rewrite.Communicator.{Communicator, new, push, queue_empty}
use cryptar.Rewrite.Communicator.Threads.{
  pushing, joining, returned, looping, gathering, transferring, ended, Shared, start, batch_of,
  Step, Reach, here, next, client_pushes, client_finds_empty, client_joins, client_returns,
  thread_goes_on, thread_ends, thread_sleeps, thread_sees_blocks, thread_misses, thread_gathers,
  thread_transfers,
}

pub record Inv (s : Shared) : Type 0 where
  pub in_order : s.sent ++ (s.blocks_to_stage ++ s.comm.queue) ≡ s.pushed
  pub unstaged : s.thread ≢ transferring → s.blocks_to_stage ≡ []
  pub emptied : s.client ≢ pushing → s.comm.queue ≡ []
  pub unneeded : s.client ≡ joining → s.comm.needed ≡ false
  pub finished : s.client ≡ returned → s.thread ≡ ended
  pub wanted : s.client ≡ pushing → s.comm.needed ≡ true
  pub alive : s.comm.needed ≡ true → s.thread ≢ ended
  pub sized : 0 < s.comm.batch_size

empty_queue : (c : Communicator) → queue_empty c ≡ true → c.queue ≡ []
unfolding queue_empty
empty_queue c e = ground arith

start-Inv : (testing : Bool) (t : Transport) → Inv (start testing t)
unfolding new
start-Inv testing t = ground arith

append_last :
    (xs ys zs : List ℕ) (b : ℕ) → xs ++ (ys ++ (zs ++ b ∷ [])) ≡ (xs ++ (ys ++ zs)) ++ b ∷ []
append_last xs ys zs b =
    ap (λ t. xs ++ t) (sym (append_assoc ys zs (b ∷ [])))
    ∙ sym (append_assoc xs (ys ++ zs) (b ∷ []))

gathering-not_ended : gathering ≢ ended
gathering-not_ended e = cc

transferring-not_ended : transferring ≢ ended
transferring-not_ended e = cc

looping-not_ended : looping ≢ ended
looping-not_ended e = cc

pushing-not_returned : pushing ≢ returned
pushing-not_returned e = cc

pub Step-Inv : {s t : Shared} → Step s t → Inv s → Inv t
unfolding push
Step-Inv (client_pushes s bp c) h = record {
  in_order =
      append_last s.sent s.blocks_to_stage s.comm.queue bp ∙ ap (λ t. t ++ bp ∷ []) h.in_order;
  unstaged = h.unstaged;
  emptied = λ n. absurd (n c);
  unneeded = h.unneeded;
  finished = h.finished;
  wanted = h.wanted;
  alive = h.alive;
  sized = h.sized;
}
Step-Inv (client_finds_empty s c e) h = ground (arith, empty_queue s.comm e)
Step-Inv (client_joins s c) h = ground arith
Step-Inv (client_returns s c e) h = ground arith
Step-Inv (thread_goes_on s e n) h = ground arith
Step-Inv (thread_ends s e n) h = ground arith
Step-Inv (thread_sleeps s e q) h = ground arith
Step-Inv (thread_sees_blocks s e q) h = ground arith
Step-Inv (thread_misses s e q) h = ground arith
Step-Inv (thread_gathers s e q) h = record {
  in_order =
      ap (λ t. s.sent ++ t) (take-append-drop (batch_of s.comm) s.comm.queue)
      ∙ sym (ap (λ t. s.sent ++ (t ++ s.comm.queue)) (h.unstaged (ground arith)))
      ∙ h.in_order;
  unstaged = λ n. absurd (n refl);
  emptied = λ n. ap (drop (batch_of s.comm)) (h.emptied n) ∙ drop-nil (batch_of s.comm);
  unneeded = h.unneeded;
  finished = λ r. absurd (gathering-not_ended (sym e ∙ h.finished r));
  wanted = h.wanted;
  alive = λ n. transferring-not_ended;
  sized = h.sized;
}
Step-Inv (thread_transfers s e) h = record {
  in_order = append_assoc s.sent s.blocks_to_stage s.comm.queue ∙ h.in_order;
  unstaged = λ n. refl;
  emptied = h.emptied;
  unneeded = h.unneeded;
  finished = λ r. absurd (transferring-not_ended (sym e ∙ h.finished r));
  wanted = h.wanted;
  alive = λ n. looping-not_ended;
  sized = h.sized;
}

pub Reach-Inv : {s t : Shared} → Reach s t → Inv s → Inv t
Reach-Inv here h = h
Reach-Inv (next r step) h = Step-Inv step (Reach-Inv r h)

-- In every state that the two threads reach, what has been transferred, what is staged and what is queued are
-- together what was pushed, in that order; nothing is staged but between the two loops of a batch; the
-- queue is empty once the client has found it so; the thread is alive while it is needed, is needed until
-- the client stops to push, and has ended when the wait returns.
pub reached-Inv : {s : Shared} (testing : Bool) (t : Transport) → Reach (start testing t) s → Inv s
reached-Inv testing t r = Reach-Inv r (start-Inv testing t)

-- Whatever the order of the steps, when the client's wait returns all the blocks that it has pushed have
-- been transferred, once each and in the order in which they were pushed.
pub sent_all :
    {s : Shared} (testing : Bool) (t : Transport)
    → Reach (start testing t) s
    → s.client ≡ returned
    → s.sent ≡ s.pushed
sent_all {s} testing t r e =
    let h = reached-Inv testing t r in
    let staged = h.unstaged (λ x. transferring-not_ended (sym x ∙ h.finished e)) in
    let queued = h.emptied (λ x. pushing-not_returned (sym x ∙ e)) in
    sym (append-nil s.sent) ∙ sym (ap₂ (λ x y. s.sent ++ (x ++ y)) staged queued) ∙ h.in_order
