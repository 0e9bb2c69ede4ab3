-- ===== src/TaskQueue/Dequeue.antt =====
-- `tskq_dequeue` and the calls that read the head of the queue.
use psp.Base.{
  Ptr, null, ◌≤◌, ◌≡◌, ap, false, none, some, [], ◌∷◌, All, length, arith, ◌==◌, if◌then◌else◌,
  ne→==,
}
use psp.Mempool.{Mempool, mempool_free}
use psp.Mempool.Laws.{
  IsPool, Owned, mempool_free-IsPool, allocated-mempool_free, Owned-mempool_free,
  capacity-mempool_free,
}
use psp.TaskQueue.{Item, Task, TaskQueue, TaskMemory, tskq_dequeue, get_queue_timestamp}
use psp.TaskQueue.Chain.{Cells, Chain, last_address, Apart, IsQueue}

-- tasks in use stay so when another one is given back
Owned-free :
    {pool : Mempool} (v : IsPool pool) (a : Ptr) (o : Owned pool a) (used : 1 ≤ pool.allocated)
    (xs : Cells)
    → Apart a xs
    → All (λ (c : Ptr × Item). Owned pool c.0) xs
    → All (λ (c : Ptr × Item). Owned (mempool_free a pool) c.0) xs
Owned-free v a o used [] ap h = tt
Owned-free v a o used ((b, e) ∷ xs) ap h =
    (Owned-mempool_free v a o used b h.0 ap.0, Owned-free v a o used xs ap.1 h.1)

-- the tail pointer after the first task is gone
dequeued_tail :
    (tq : TaskQueue) (t : Ptr → Task) (a : Ptr) (xs : Cells)
    → Chain t (t a).next xs
    → tq.tail ≡ last_address a xs
    → 1 ≤ length xs
    → (if (t a).next == null then null else tq.tail) ≡ last_address null xs
dequeued_tail tq t a [] c last some_left = absurd (omega arith)
dequeued_tail tq t a ((b, e) ∷ xs) c last some_left = rw (c.0, ne→== b null c.1) last

module _ {tq : TaskQueue} {mem : TaskMemory} where
  pub dequeue-nil : IsQueue tq mem [] → tskq_dequeue tq mem ≡ (none, tq, mem)
  unfolding tskq_dequeue
  dequeue-nil v = rw v.chain

  pub dequeue-cons :
      (a : Ptr) (e : Item) (xs : Cells)
      → IsQueue tq mem ((a, e) ∷ xs)
      → let (r, tq', mem') = tskq_dequeue tq mem in
        (r ≡ some e) × IsQueue tq' mem' xs × (mem'.pool.capacity ≡ mem.pool.capacity)
  unfolding tskq_dequeue
  dequeue-cons a e xs v =
      let used : 1 ≤ mem.pool.allocated = omega (arith, v.count) in
      let busy : (tq.head == null) ≡ false = rw v.chain.0 (ne→== a null v.chain.1) in
      rw (busy, v.chain.0)
        (
          ap some v.chain.2,
          record {
            chain = v.chain.3;
            last = dequeued_tail tq mem.task a xs v.chain.3 (v.last (omega arith));
            distinct = v.distinct.1;
            owned = Owned-free v.pool a v.owned.0 used xs v.distinct.0 v.owned.1;
            pool = mempool_free-IsPool v.pool a v.owned.0 used v.chain.1;
            count = omega (arith, allocated-mempool_free v.pool a v.owned.0 used, v.count);
          },
          capacity-mempool_free v.pool a v.owned.0 used,
        )

  pub timestamp-nil : IsQueue tq mem [] → get_queue_timestamp tq mem ≡ none
  unfolding get_queue_timestamp
  timestamp-nil v = rw v.chain

  pub timestamp-cons :
      (a : Ptr) (e : Item) (xs : Cells)
      → IsQueue tq mem ((a, e) ∷ xs)
      → get_queue_timestamp tq mem ≡ some e.timestamp
  unfolding get_queue_timestamp
  timestamp-cons a e xs v =
      let busy : (tq.head == null) ≡ false = rw v.chain.0 (ne→== a null v.chain.1) in
      rw (busy, v.chain.0, v.chain.2)
