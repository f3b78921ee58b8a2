-- ===== src/Rewrite/Communicator/Threads/Progress.antt =====
-- The end of `wait` of src/communicate.cpp.
use cryptar.Prelude.{
  ℕ, zero, suc, false, ◌≤◌, ◌<◌, length, drop, Bool-cases, inl, inr, arith, ltb, length-drop, [],
  ◌∷◌, List, Bool, true, ◌≡◌, refl, ◌∙◌, sym, ◌≢◌,
}
use cryptar.Rewrite.Block.{Transport}
use cryptar.Rewrite.Communicator.{Communicator, queue_empty}
use cryptar.Rewrite.Communicator.Threads.{
  ClientState, pushing, waited, joining, returned, ThreadState, looping, checking, gathering,
  transferring, ended, Shared, start, Step, Reach, here, next, client_finds_empty, client_joins,
  client_returns, thread_goes_on, thread_sees_blocks, thread_gathers, batch_of, thread_ends,
  thread_sleeps, thread_misses, thread_transfers,
}
use cryptar.Rewrite.Communicator.Threads.Invariant.{Inv, Step-Inv, reached-Inv}

-- The wait can return from here.
abbrev pub CanReturn : Shared → Type 0
CanReturn s = (t : Shared) × Reach s t × (t.client ≡ returned)

-- One step more at the front.
before : {s t u : Shared} → Step s t → Reach t u → Reach s u
before step here = next here step
before step (next r last) = next (before step r) last

first : {s t : Shared} → Step s t → CanReturn t → CanReturn s
first step (u, r, e) = (u, before step r, e)

joining-not_pushing : joining ≢ pushing
joining-not_pushing e = cc

empty : (s : Shared) → Inv s → s.client ≡ joining → queue_empty s.comm ≡ true
unfolding queue_empty
empty s h c = rw (h.emptied (λ x. joining-not_pushing (sym c ∙ x))) refl

-- The thread has ended.
ended_returns : (s : Shared) → s.client ≡ joining → s.thread ≡ ended → CanReturn s
ended_returns s c e = (_, next here (client_returns s c e), refl)

looping_returns : (s : Shared) → Inv s → s.client ≡ joining → s.thread ≡ looping → CanReturn s
looping_returns s h c e =
    first (thread_ends s e (h.unneeded c)) (ended_returns (record s { thread = ended }) c refl)

joining_returns :
    (s : Shared) → Inv s → s.client ≡ joining → (p : ThreadState) → s.thread ≡ p → CanReturn s
joining_returns s h c looping e = looping_returns s h c e
joining_returns s h c checking e =
    let step = thread_sleeps s e (empty s h c) in
    first step (looping_returns _ (Step-Inv step h) c refl)
joining_returns s h c gathering e =
    let step = thread_misses s e (empty s h c) in
    first step (looping_returns _ (Step-Inv step h) c refl)
joining_returns s h c transferring e =
    let step = thread_transfers s e in first step (looping_returns _ (Step-Inv step h) c refl)
joining_returns s h c ended e = ended_returns s c e

-- The client has found the queue empty.
waited_returns : (s : Shared) → Inv s → s.client ≡ waited → CanReturn s
waited_returns s h e =
    let step = client_joins s e in
    first step (joining_returns _ (Step-Inv step h) refl s.thread refl)

emptied_returns :
    (s : Shared) → Inv s → s.client ≡ pushing → queue_empty s.comm ≡ true → CanReturn s
emptied_returns s h c e =
    let step = client_finds_empty s c e in first step (waited_returns _ (Step-Inv step h) refl)

-- A batch of a queue that is not empty leaves less of it.
shorter :
    (c : Communicator) (n : ℕ)
    → 0 < c.batch_size
    → queue_empty c ≡ false
    → length c.queue ≤ suc n
    → length (drop (batch_of c) c.queue) ≤ n
unfolding queue_empty
shorter c n pos e h = elim (Bool-cases (ltb (length c.queue) c.batch_size)) [
  | inl t ↦ rw t (omega (arith, length-drop (length c.queue) c.queue))
  | inr f ↦ rw f (omega (arith, length-drop c.batch_size c.queue))
]

-- From a shorter queue the wait can return.
abbrev FromShorter : ℕ → Type 0
FromShorter n =
    (t : Shared)
    → Inv t
    → t.client ≡ pushing
    → t.thread ≡ looping
    → length t.comm.queue ≤ n
    → CanReturn t

gathering_returns :
    (n : ℕ) (s : Shared)
    → FromShorter n
    → Inv s
    → s.client ≡ pushing
    → s.thread ≡ gathering
    → queue_empty s.comm ≡ false
    → length s.comm.queue ≤ suc n
    → CanReturn s
gathering_returns n s back h c e q size =
    let gathers = thread_gathers s e q in
    let h' = Step-Inv gathers h in
    let transfers = thread_transfers _ refl in
    first gathers
      (first transfers (back _ (Step-Inv transfers h') c refl (shorter s.comm n h.sized q size)))

checking_returns :
    (n : ℕ) (s : Shared)
    → FromShorter n
    → Inv s
    → s.client ≡ pushing
    → s.thread ≡ checking
    → queue_empty s.comm ≡ false
    → length s.comm.queue ≤ suc n
    → CanReturn s
checking_returns n s back h c e q size =
    let step = thread_sees_blocks s e q in
    first step (gathering_returns n _ back (Step-Inv step h) c refl q size)

none_left : (c : Communicator) → length c.queue ≤ 0 → queue_empty c ≡ true
unfolding queue_empty
none_left c h = go c.queue h
  where
    go : (q : List ℕ) → length q ≤ 0 → (elim q [ [] ↦ true | _ ∷ _ ↦ false ]) ≡ true
    go [] h = refl
    go (b ∷ q) h = absurd (omega arith)

-- The thread at its loop takes one batch after the other.
loop_returns : (n : ℕ) → FromShorter n
loop_returns zero s h c e size = emptied_returns s h c (none_left s.comm size)
loop_returns (suc n) s h c e size = elim (Bool-cases (queue_empty s.comm)) [
  | inl q ↦ emptied_returns s h c q
  | inr q ↦
      (let step = thread_goes_on s e (h.wanted c) in
        first step (checking_returns n _ (loop_returns n) (Step-Inv step h) c refl q size))
]

-- The client stops to push, wherever the thread is.
pushing_returns :
    (s : Shared) → Inv s → s.client ≡ pushing → (p : ThreadState) → s.thread ≡ p → CanReturn s
pushing_returns s h c looping e = loop_returns (length s.comm.queue) s h c e (omega arith)
pushing_returns s h c checking e = elim (Bool-cases (queue_empty s.comm)) [
  | inl q ↦ emptied_returns s h c q
  | inr q ↦ checking_returns _ s (loop_returns (length s.comm.queue)) h c e q (omega arith)
]
pushing_returns s h c gathering e = elim (Bool-cases (queue_empty s.comm)) [
  | inl q ↦ emptied_returns s h c q
  | inr q ↦ gathering_returns _ s (loop_returns (length s.comm.queue)) h c e q (omega arith)
]
pushing_returns s h c transferring e =
    let step = thread_transfers s e in
    first step (loop_returns (length s.comm.queue) _ (Step-Inv step h) c refl (omega arith))
pushing_returns s h c ended e = absurd (h.alive (h.wanted c) e)

-- From every state that the two threads reach the wait of the client can return, however many blocks are
-- queued and wherever the thread is: no order of the steps locks the two against each other.
pub wait_returns :
    {s : Shared} (testing : Bool) (t : Transport) → Reach (start testing t) s → CanReturn s
wait_returns {s} testing t r = go s.client refl
  where
    h : Inv s
    h = reached-Inv testing t r

    go : (c : ClientState) → s.client ≡ c → CanReturn s
    go pushing e = pushing_returns s h e s.thread refl
    go waited e = waited_returns s h e
    go joining e = joining_returns s h e s.thread refl
    go returned e = (s, here, e)
