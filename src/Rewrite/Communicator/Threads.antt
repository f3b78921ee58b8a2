-- ===== src/Rewrite/Communicator/Threads.antt =====
-- src/communicate.cpp where it runs a thread: the client pushes blocks and waits once, the thread
-- transfers them. The steps are what the lock on the queue makes atomic, in any order; a test of `m_needed`
-- or of the queue outside of the lock is a step too, which sees the last write, and a transfer that throws
-- is left out.
pub mod Invariant
pub mod Progress
use cryptar.Prelude.{
  ℕ, Bool, true, false, ◌≡◌, List, [], ◌++◌, ◌∷◌, length, take, drop, ltb, if◌then◌else◌,
}
use cryptar.Rewrite.Block.{Transport}
use cryptar.Rewrite.Communicator.{Communicator, new, push, queue_empty}

-- Where the client is: `waited` has found the queue empty, `joining` has reset `m_needed`.
pub data ClientState : Type 0 where
  pushing waited joining returned : ClientState

-- Where the thread is: at the test of its loop, at the first test of `comm_batch`, in front of the locked
-- part, between the two loops over `blocks_to_stage`, or at its end.
pub data ThreadState : Type 0 where
  looping checking gathering transferring ended : ThreadState

pub record Shared : Type 0 where
  pub comm : Communicator
  pub client : ClientState
  pub thread : ThreadState
  pub blocks_to_stage : List ℕ
  -- What the client has pushed and the thread has transferred so far.
  pub pushed : List ℕ
  pub sent : List ℕ

abbrev pub start : (testing : Bool) → Transport → Shared
start testing transport = record {
  comm = new testing transport;
  client = pushing;
  thread = looping;
  blocks_to_stage = [];
  pushed = [];
  sent = [];
}

abbrev pub batch_of : Communicator → ℕ
batch_of c = if ltb (length c.queue) c.batch_size then length c.queue else c.batch_size

pub data Step : Shared → Shared → Type 0 where
  client_pushes :
      (s : Shared) (bp : ℕ)
      → s.client ≡ pushing
      → Step s (record s { comm = push bp s.comm; pushed = s.pushed ++ bp ∷ [] })
  client_finds_empty :
      (s : Shared)
      → s.client ≡ pushing
      → queue_empty s.comm ≡ true
      → Step s (record s { client = waited })
  client_joins :
      (s : Shared)
      → s.client ≡ waited
      → Step s (record s { comm = record s.comm { needed = false }; client = joining })
  client_returns :
      (s : Shared) → s.client ≡ joining → s.thread ≡ ended → Step s (record s { client = returned })
  thread_goes_on :
      (s : Shared)
      → s.thread ≡ looping
      → s.comm.needed ≡ true
      → Step s (record s { thread = checking })
  thread_ends :
      (s : Shared)
      → s.thread ≡ looping
      → s.comm.needed ≡ false
      → Step s (record s { thread = ended })
  thread_sleeps :
      (s : Shared)
      → s.thread ≡ checking
      → queue_empty s.comm ≡ true
      → Step s (record s { thread = looping })
  thread_sees_blocks :
      (s : Shared)
      → s.thread ≡ checking
      → queue_empty s.comm ≡ false
      → Step s (record s { thread = gathering })
  thread_misses :
      (s : Shared)
      → s.thread ≡ gathering
      → queue_empty s.comm ≡ true
      → Step s (record s { thread = looping })
  thread_gathers :
      (s : Shared)
      → s.thread ≡ gathering
      → queue_empty s.comm ≡ false
      → Step s (record s {
        comm = record s.comm { queue = drop (batch_of s.comm) s.comm.queue };
        thread = transferring;
        blocks_to_stage = take (batch_of s.comm) s.comm.queue;
      })
  thread_transfers :
      (s : Shared)
      → s.thread ≡ transferring
      → Step s
          (record s { thread = looping; blocks_to_stage = []; sent = s.sent ++ s.blocks_to_stage })

pub data Reach (s : Shared) : Shared → Type 0 where
  here : Reach s s
  next : {t u : Shared} → Reach s t → Step t u → Reach s u
