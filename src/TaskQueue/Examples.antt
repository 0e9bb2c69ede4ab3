-- ===== src/TaskQueue/Examples.antt =====
-- Queues over a pool of two tasks, at 100 and 101.
use psp.Base.{ℕ, null, refl, [], ◌∷◌, arith, ◌==◌, if◌then◌else◌}
use psp.Mempool.Examples.{two_items, two_items-IsPool, first-Owned}
use psp.TaskQueue.{Item, TaskQueue, TaskMemory, tskq_enqueue_tail, tskq_dequeue}
use psp.TaskQueue.Chain.{Represents}
use psp.TaskQueue.Fifo
use psp.TaskQueue.Refine.{Dequeued, tskq_enqueue_tail-Represents, tskq_dequeue-Dequeued}

abbrev pub request : ℕ → Item
request p = record { runnable = 7; mbuf = p; type = 0; category = 1; timestamp = 5 }

-- one request, for the packet at 9
abbrev pub one_queued : TaskQueue
one_queued = record { head = 100; tail = 100 }

abbrev pub one_task : TaskMemory
one_task = record { pool = two_items 1; task = λ p. record { item = request 9; next = null } }

pub one-Represents : Represents one_queued one_task 2 (request 9 ∷ [])
one-Represents = record {
  cells = (100, request 9) ∷ [];
  queue = record {
    chain = (refl, omega arith, refl, refl);
    last = λ h. refl;
    distinct = (tt, tt);
    owned = (first-Owned, tt);
    pool = two_items-IsPool 1 (omega arith);
    count = refl;
  };
  contents = refl;
  bound = refl;
}

-- two requests, which use up the pool
abbrev two_queued : TaskQueue
two_queued = record { head = 100; tail = 101 }

abbrev two_tasks : TaskMemory
two_tasks = record {
  pool = two_items 2;
  task = λ p. record { item = request 9; next = if p == 100 then 101 else null };
}

two-Represents : Represents two_queued two_tasks 2 (request 9 ∷ request 9 ∷ [])
two-Represents = record {
  cells = (100, request 9) ∷ (101, request 9) ∷ [];
  queue = record {
    chain = (refl, omega arith, refl, (refl, omega arith, refl, refl));
    last = λ h. refl;
    distinct = ((omega arith, tt), (tt, tt));
    owned = (λ i lo hi. omega arith, (λ i lo hi. omega arith, tt));
    pool = two_items-IsPool 2 (omega arith);
    count = refl;
  };
  contents = refl;
  bound = refl;
}

tskq_enqueue_tail-Represents_example :
    let (tq', mem') = tskq_enqueue_tail one_queued (request 8) one_task in
    Represents tq' mem' 2 (Fifo.enqueue 2 (request 9 ∷ []) (request 8))
tskq_enqueue_tail-Represents_example =
    tskq_enqueue_tail-Represents (request 8) 2 (request 9 ∷ []) one-Represents

tskq_dequeue-Dequeued_example : Dequeued 2 (request 9 ∷ []) (tskq_dequeue one_queued one_task)
tskq_dequeue-Dequeued_example = tskq_dequeue-Dequeued 2 (request 9 ∷ []) one-Represents
