-- ===== src/Rewrite/Communicator.antt =====
-- src/communicate.h and src/communicate.cpp: the queue of blocks that are to be transferred.
--
-- Blocks are shared by pointer, so they are a store from numbers. A completion token may use the client's
-- state, not the queue. `sleep` and the messages are left out.
pub mod Draining
pub mod Batches
pub mod Threads
use cryptar.Prelude.{
  ℕ, zero, suc, Bool, true, false, List, [], ◌∷◌, ◌++◌, ltb, ◌==◌, if◌then◌else◌, length, take,
  drop, State, Result, ok, fault, out_of_bounds, pure, get, put, and_then, ◌>>=◌, ◌>>◌,
}
use cryptar.Rewrite.System.{System, Os}
use cryptar.Rewrite.Crypt.{CryptoLib}
use cryptar.Rewrite.Block.{Transport, Block, complete}
use cryptar.Rewrite.Transport.{transport_write}

abbrev pub communicator_prod_batch_size : ℕ
communicator_prod_batch_size = 100

abbrev pub communicator_test_batch_size : ℕ
communicator_test_batch_size = 3

pub record Communicator : Type 0 where
  pub batch_size : ℕ
  pub transport : Transport
  pub needed : Bool
  pub queue : List ℕ

-- The constructor; a thread that it starts is in `cryptar.Rewrite.Communicator.Threads`.
unfoldable pub new : (testing : Bool) → Transport → Communicator
new testing transport = record {
  batch_size = if testing then communicator_test_batch_size else communicator_prod_batch_size;
  transport = transport;
  needed = true;
  queue = [];
}

unfoldable pub push : ℕ → Communicator → Communicator
push bp c = record c { queue = c.queue ++ bp ∷ [] }

unfoldable pub queue_empty : Communicator → Bool
queue_empty c = elim c.queue [ [] ↦ true | _ ∷ _ ↦ false ]

-- The front of an empty queue is no object.
unfoldable pub pop : State Communicator ℕ
pop c = elim c.queue [ [] ↦ fault out_of_bounds | bp ∷ queue ↦ ok (bp, record c { queue = queue }) ]

-- The blocks and the state that their tokens use.
pub record Objects (Act Client : Type 0) : Type 0 where
  pub blocks : ℕ → Block Act
  pub client : Client

pub record World (Act Client : Type 0) : Type 0 where
  pub system : System
  pub objects : Objects Act Client

unfoldable pub write_all :
    {Act : Type 0}
    → CryptoLib
    → Os
    → Transport
    → (blocks : ℕ → Block Act) → List ℕ
    → State System (Unit {0})
write_all lib os transport blocks [] = pure tt
write_all lib os transport blocks (bp ∷ bps) = do
  transport_write lib os transport (blocks bp)
  write_all lib os transport blocks bps

module _ {Act Client : Type 0} where
  abbrev pub set_block : ℕ → Block Act → Objects Act Client → Objects Act Client
  set_block bp b o = record o { blocks = λ q. if q == bp then b else o.blocks q }

  -- A block's completion, called through its pointer.
  unfoldable pub complete_at :
      (call : Act → State Client (Unit {0})) → ℕ → State (Objects Act Client) (Unit {0})
  complete_at call bp o = elim (complete call (o.blocks bp) o.client) [
    | ok (b, client) ↦ ok (tt, set_block bp b (record o { client = client }))
    | fault x ↦ fault x
  ]

  unfoldable pub complete_all :
      (call : Act → State Client (Unit {0})) → List ℕ → State (Objects Act Client) (Unit {0})
  complete_all call [] = pure tt
  complete_all call (bp ∷ bps) = do complete_at call bp; complete_all call bps

module _ {Act Client : Type 0} (lib : CryptoLib) (os : Os)
    (call : Act → State Client (Unit {0})) where
  -- The blocks that are taken from the queue are all written, then all completed.
  unfoldable pub transfer : Transport → List ℕ → State (World Act Client) (Unit {0})
  transfer transport bps w =
      and_then (write_all lib os transport w.objects.blocks bps w.system) λ (_, system).
        and_then (complete_all call bps w.objects)
          λ (_, objects). ok (tt, record w { system = system; objects = objects })

  unfoldable pub comm_batch : Communicator → State (World Act Client) Communicator
  comm_batch c = elim c.queue [
    | [] ↦ pure c
    | _ ∷ _ ↦ do
      let size = if ltb (length c.queue) c.batch_size then length c.queue else c.batch_size
      transfer c.transport (take size c.queue)
      pure (record c { queue = drop size c.queue })
  ]

  -- Several turns of the loop of `operator()`; one where no threads are used.
  unfoldable pub batches : ℕ → Communicator → State (World Act Client) Communicator
  batches zero c = pure c
  batches (suc n) c = do c' ← comm_batch c; batches n c'
