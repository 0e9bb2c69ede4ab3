-- ===== src/NetWorker/Examples.antt =====
-- A net worker with two packets waiting, and two contexts or none left.
use psp.Base.{ℕ, null, ◌≡◌, refl, [], ◌∷◌, arith, stuck}
use psp.Mempool.Examples.{two_items, two_items-IsPool}
use psp.TaskQueue.{TaskQueue, TaskMemory}
use psp.TaskQueue.Chain.{Represents}
use psp.TaskQueue.Examples.{request}
use psp.Context.Examples.{contexts, none-IsLive, two-IsLive}
use psp.Scheduler.Examples.{one_finished}
use psp.Udp.Examples.{two_packets}
use psp.NetWorker.{Net, receive_batch}
use psp.NetWorker.Batch.{IsReady, Batched, receive_batch-Batched, receive_batch-stuck}

abbrev no_tasks : TaskMemory
no_tasks = record { pool = two_items 0; task = λ p. record { item = request 9; next = null } }

abbrev empty_queue : TaskQueue
empty_queue = record { head = null; tail = null }

empty-Represents : Represents empty_queue no_tasks 2 []
empty-Represents = record {
  cells = [];
  queue = record {
    chain = refl;
    last = λ h. absurd (omega arith);
    distinct = tt;
    owned = tt;
    pool = two_items-IsPool 0 (omega arith);
    count = refl;
  };
  contents = refl;
  bound = refl;
}

-- so many contexts are in use
abbrev two_waiting : ℕ → Net
two_waiting used = record {
  udp = two_packets;
  shared = record one_finished { tskq = empty_queue; tasks = no_tasks; contexts = contexts used };
  n_rcvd = 0;
  n_batchs_rcvd = 0;
}

all_free-IsReady : IsReady 2 3 (9 ∷ 10 ∷ []) [] [] (two_waiting 0)
all_free-IsReady = record {
  pending = (refl, (refl, tt));
  tail = refl;
  head = refl;
  no_wrap = omega arith;
  contexts = none-IsLive;
  queue = empty-Represents;
}

none_free-IsReady : IsReady 2 3 (9 ∷ 10 ∷ []) (101 ∷ 100 ∷ []) [] (two_waiting 2)
none_free-IsReady = record {
  pending = (refl, (refl, tt));
  tail = refl;
  head = refl;
  no_wrap = omega arith;
  contexts = two-IsLive;
  queue = empty-Represents;
}

receive_batch-Batched_example :
    Batched 2 77 0 8 3 (9 ∷ 10 ∷ []) [] [] (receive_batch 9 77 0 (two_waiting 0))
receive_batch-Batched_example =
    receive_batch-Batched 77 (9 ∷ 10 ∷ []) all_free-IsReady
      (record { contexts = omega arith; stacks = omega arith; tasks = omega arith })

receive_batch-stuck_example : receive_batch 1000 77 0 (two_waiting 2) ≡ stuck
receive_batch-stuck_example = receive_batch-stuck 77 1000 0 (omega arith) none_free-IsReady refl
