-- ===== src/TaskQueue/Refine.antt =====
-- The operations of taskqueue.h against the FIFO.
use psp.Base.{
  ℕ, suc, ◌<◌, ◌≡◌, refl, sym, ap, ◌∙◌, Option, none, List, [], ◌∷◌, ◌++◌, length, arith,
  if◌then◌else◌, ltb, Bool-cases, inl, inr, ltb→lt,
}
use psp.Mempool.Laws.{IsPool, mempool_alloc-exhausted}
use psp.TaskQueue.{
  Item, TaskQueue, TaskMemory, tskq_enqueue_tail, tskq_dequeue, naive_tskq_dequeue,
  smart_tskq_dequeue, waited_long,
}
use psp.TaskQueue.Chain.{Cells, IsQueue, items, Represents}
use psp.TaskQueue.Fifo
use psp.TaskQueue.Enqueue.{enqueue_tail-nil, enqueue_tail-cons, items-append}
use psp.TaskQueue.Dequeue.{dequeue-nil, dequeue-cons, timestamp-nil, timestamp-cons}

length-items : (xs : Cells) → length (items xs) ≡ length xs
length-items [] = refl
length-items (c ∷ xs) = ap suc (length-items xs)

-- the outcome of a dequeue from a queue that holds `q`
pub record Dequeued (capacity : ℕ) (q : List Item) (r : Option Item × TaskQueue × TaskMemory)
    : Type 0 where
  pub result : r.0 ≡ (Fifo.dequeue q).0
  pub left : Represents r.1 r.2 capacity (Fifo.dequeue q).1

module _ {tq : TaskQueue} {mem : TaskMemory} where
  -- the number of tasks in use is the length of the queue
  pub in_use :
      {capacity : ℕ} {q : List Item} → Represents tq mem capacity q → mem.pool.allocated ≡ length q
  in_use v = v.queue.count ∙ (sym (length-items v.cells) ∙ ap length v.contents)

  enqueue_full :
      (e : Item)
      → mem.pool.allocated ≡ mem.pool.capacity
      → IsPool mem.pool
      → tskq_enqueue_tail tq e mem ≡ (tq, mem)
  unfolding tskq_enqueue_tail
  enqueue_full e full v = rw (mempool_alloc-exhausted v full)

  enqueue_room :
      (e : Item) (xs : Cells)
      → IsQueue tq mem xs
      → mem.pool.allocated < mem.pool.capacity
      → let (tq', mem') = tskq_enqueue_tail tq e mem in
        Represents tq' mem' mem.pool.capacity (items xs ++ (e ∷ []))
  enqueue_room e [] v room =
      let r = enqueue_tail-nil e room v in
      record { cells = _; queue = r.0; contents = refl; bound = r.1 }
  enqueue_room e ((a, d) ∷ xs) v room =
      let r = enqueue_tail-cons e room a d xs v in
      record {
        cells = _;
        queue = r.0;
        contents = ap (λ l. d ∷ l) (items-append _ e xs);
        bound = r.1;
      }

  -- `tskq_enqueue_tail` puts the item behind the others while the pool has a task left, and drops
  -- it otherwise.
  pub tskq_enqueue_tail-Represents :
      (e : Item) (capacity : ℕ) (q : List Item)
      → Represents tq mem capacity q
      → let (tq', mem') = tskq_enqueue_tail tq e mem in
        Represents tq' mem' capacity (Fifo.enqueue capacity q e)
  unfolding Fifo.enqueue
  tskq_enqueue_tail-Represents e capacity q v = elim (Bool-cases (ltb (length q) capacity)) [
    | inl room ↦
        rw (room, ← v.contents, ← v.bound)
          (enqueue_room e v.cells v.queue
            (omega (arith, in_use v, v.bound, ltb→lt (length q) capacity room)))
    | inr full ↦
        let all : mem.pool.allocated ≡ mem.pool.capacity =
          ground (arith, in_use v, v.bound, v.queue.pool.within) in
        rw (full, enqueue_full e all v.queue.pool) v
  ]

  Dequeued-cells :
      (capacity : ℕ) (xs : Cells)
      → IsQueue tq mem xs
      → mem.pool.capacity ≡ capacity
      → Dequeued capacity (items xs) (tskq_dequeue tq mem)
  unfolding Fifo.dequeue
  Dequeued-cells capacity [] v bound = rw (dequeue-nil v) (record {
    result = refl;
    left = record { cells = []; queue = v; contents = refl; bound = bound };
  })
  Dequeued-cells capacity ((a, e) ∷ xs) v bound =
      let r = dequeue-cons a e xs v in
      record {
        result = r.0;
        left = record { cells = xs; queue = r.1; contents = refl; bound = r.2 ∙ bound };
      }

  -- `tskq_dequeue` returns the oldest item and gives its task back to the pool; on an empty queue
  -- it fails.
  pub tskq_dequeue-Dequeued :
      (capacity : ℕ) (q : List Item)
      → Represents tq mem capacity q
      → Dequeued capacity q (tskq_dequeue tq mem)
  tskq_dequeue-Dequeued capacity q v =
      rw (← v.contents) (Dequeued-cells capacity v.cells v.queue v.bound)

-- `naive_tskq_dequeue` over the one queue is `tskq_dequeue`.
pub naive_tskq_dequeue_lem :
    (tq : TaskQueue) (mem : TaskMemory) → naive_tskq_dequeue tq mem ≡ tskq_dequeue tq mem
unfolding naive_tskq_dequeue
naive_tskq_dequeue_lem tq mem = ground arith

-- what `smart_tskq_dequeue` does by the oldest item
abbrev pub smart_result :
    TaskQueue → TaskMemory → ℕ → List Item → Option Item × TaskQueue × TaskMemory
smart_result tq mem cur_time [] = (none, tq, mem)
smart_result tq mem cur_time (e ∷ q) =
    if waited_long cur_time e.timestamp then tskq_dequeue tq mem else (none, tq, mem)

smart-cells :
    {tq : TaskQueue} {mem : TaskMemory} (cur_time : ℕ) (xs : Cells)
    → IsQueue tq mem xs
    → smart_tskq_dequeue tq cur_time mem ≡ smart_result tq mem cur_time (items xs)
unfolding smart_tskq_dequeue
smart-cells cur_time [] v = rw (timestamp-nil v, smart_tskq_dequeue)
smart-cells cur_time ((a, e) ∷ xs) v = rw (timestamp-cons a e xs v, smart_tskq_dequeue)

-- `smart_tskq_dequeue` dequeues the oldest item if that has waited for 1000 time units or more, and
-- fails otherwise and on an empty queue, changing nothing.
pub smart_tskq_dequeue_lem :
    {tq : TaskQueue} {mem : TaskMemory} (cur_time capacity : ℕ) (q : List Item)
    → Represents tq mem capacity q
    → smart_tskq_dequeue tq cur_time mem ≡ smart_result tq mem cur_time q
smart_tskq_dequeue_lem cur_time capacity q v =
    rw (← v.contents) (smart-cells cur_time v.cells v.queue)
