-- ===== src/Tests/Threads.antt =====
-- One block that is pushed while the thread of src/communicate.cpp runs.
use cryptar.Prelude.{◌≡◌, refl, true, false, [], ◌∷◌}
use cryptar.Rewrite.Block.{none_transport}
use cryptar.Rewrite.Communicator.{Communicator, new, push, queue_empty}
use cryptar.Rewrite.Communicator.Threads.{
  pushing, waited, returned, looping, transferring, ended, Shared, start, Reach, here, next,
  client_pushes, client_finds_empty, client_joins, client_returns, thread_goes_on, thread_ends,
  thread_sees_blocks, thread_gathers, thread_transfers,
}
use cryptar.Rewrite.Communicator.Threads.Invariant.{Inv, reached-Inv, sent_all}
use cryptar.Rewrite.Communicator.Threads.Progress.{CanReturn, wait_returns}

-- The queue with nothing in it.
abbrev idle : Communicator
idle = record { batch_size = 3; transport = none_transport; needed = true; queue = [] }

-- The block is taken from the queue.
abbrev staged : Shared
staged = record {
  comm = idle;
  client = pushing;
  thread = transferring;
  blocks_to_stage = 7 ∷ [];
  pushed = 7 ∷ [];
  sent = [];
}

abbrev sent_one : Shared
sent_one = record {
  comm = idle;
  client = waited;
  thread = looping;
  blocks_to_stage = [];
  pushed = 7 ∷ [];
  sent = 7 ∷ [];
}

abbrev stopped : Shared
stopped = record {
  comm = record idle { needed = false };
  client = returned;
  thread = ended;
  blocks_to_stage = [];
  pushed = 7 ∷ [];
  sent = 7 ∷ [];
}

reach_staged : Reach (start true none_transport) staged
unfolding new push queue_empty
reach_staged =
    next
      (next (next (next here (client_pushes _ 7 refl)) (thread_goes_on _ refl refl))
        (thread_sees_blocks _ refl refl))
      (thread_gathers _ refl refl)

reach_sent_one : Reach (start true none_transport) sent_one
unfolding queue_empty
reach_sent_one =
    next (next reach_staged (thread_transfers staged refl)) (client_finds_empty _ refl refl)

reach_stopped : Reach (start true none_transport) stopped
reach_stopped =
    next (next (next reach_sent_one (client_joins sent_one refl)) (thread_ends _ refl refl))
      (client_returns _ refl refl)

reached-Inv_example : Inv staged
reached-Inv_example = reached-Inv true none_transport reach_staged

sent_all_example : stopped.sent ≡ stopped.pushed
sent_all_example = sent_all true none_transport reach_stopped refl

wait_returns_example : CanReturn staged
wait_returns_example = wait_returns true none_transport reach_staged
