-- ===== src/TaskQueue/EnqueueHead.antt =====
-- `tskq_enqueue_head` against a list to whose front it adds.
use psp.Base.{
  ℕ, Ptr, null, ◌<◌, ◌≡◌, refl, ap, false, List, [], ◌∷◌, All, length, arith, ◌==◌, if◌then◌else◌,
  ne→==, update, update_ne, ok, fault, add64,
}
use psp.Mempool.Laws.{mempool_alloc-Allocated, mempool_alloc-exhausted}
use psp.TaskQueue.{Item, Task, TaskQueue, TaskMemory, set_item, set_next, tskq_enqueue_head}
use psp.TaskQueue.Chain.{Cells, last_address, Apart, IsQueue, Represents}
use psp.TaskQueue.Enqueue.{fresh, Chain-frame, Owned-Apart}
use psp.TaskQueue.Refine.{in_use}

-- the tasks after the writes of an enqueue at the head
abbrev prepended : (Ptr → Task) → Ptr → Ptr → Item → Ptr → Task
prepended t head new e = set_next new head (set_item new e t)

prepended_same :
    (t : Ptr → Task) (head new : Ptr) (e : Item) (xs : Cells)
    → Apart new xs
    → All (λ (c : Ptr × Item). prepended t head new e c.0 ≡ t c.0) xs
prepended_same t head new e [] ap = tt
prepended_same t head new e (c ∷ xs) ap = (
  rw (update_ne _ new _ c.0 ap.0) (update_ne _ new _ c.0 ap.0),
  prepended_same t head new e xs ap.1,
)

prepended_new :
    (t : Ptr → Task) (head new : Ptr) (e : Item)
    → prepended t head new e new ≡ record { item = e; next = head }
unfolding update
prepended_new t head new e = ground arith

-- the queue after an enqueue at the head
abbrev after_head : TaskQueue → TaskMemory → Item → TaskQueue × TaskMemory
after_head tq mem e = (
  record { head = fresh mem; tail = if tq.head == null then fresh mem else tq.tail },
  record {
    pool = record mem.pool { allocated = add64 mem.pool.allocated 1 };
    task = prepended mem.task tq.head (fresh mem) e;
  },
)

module _ {tq : TaskQueue} {mem : TaskMemory} (e : Item) where
  enqueue_head-runs :
      (xs : Cells)
      → IsQueue tq mem xs
      → mem.pool.allocated < mem.pool.capacity
      → tskq_enqueue_head tq e mem ≡ ok (after_head tq mem e)
  unfolding tskq_enqueue_head
  enqueue_head-runs [] v room =
      let got = mempool_alloc-Allocated v.pool room in
      rw (got.result, ne→== (fresh mem) null got.ne_null, v.chain)
  enqueue_head-runs ((a, d) ∷ xs) v room =
      let got = mempool_alloc-Allocated v.pool room in
      let used : (tq.head == null) ≡ false = rw v.chain.0 (ne→== a null v.chain.1) in
      rw (got.result, ne→== (fresh mem) null got.ne_null, used)

  head_last :
      (xs : Cells)
      → IsQueue tq mem xs
      → (if tq.head == null then fresh mem else tq.tail) ≡ last_address (fresh mem) xs
  head_last [] v = rw v.chain
  head_last ((a, d) ∷ xs) v =
      let used : (tq.head == null) ≡ false = rw v.chain.0 (ne→== a null v.chain.1) in
      rw used (v.last (omega arith))

  IsQueue-head :
      (xs : Cells)
      → IsQueue tq mem xs
      → mem.pool.allocated < mem.pool.capacity
      → IsQueue (after_head tq mem e).0 (after_head tq mem e).1 ((fresh mem, e) ∷ xs)
  IsQueue-head xs v room =
      let got = mempool_alloc-Allocated v.pool room in
      let new = Owned-Apart v.pool got xs v.owned in
      let placed = prepended_new mem.task tq.head (fresh mem) e in
      record {
        chain = (
          refl,
          got.ne_null,
          ap (λ (t : Task). t.item) placed,
          rw placed (
              Chain-frame mem.task _ tq.head xs
                (prepended_same mem.task tq.head (fresh mem) e xs new.0) v.chain),
        );
        last = λ _. head_last xs v;
        distinct = (new.0, v.distinct);
        owned = (got.owned, new.1);
        pool = got.pool;
        count = omega (arith, got.count, v.count);
      }

  -- While the pool has a task left, `tskq_enqueue_head` puts the item before the others.
  pub tskq_enqueue_head-Represents :
      (capacity : ℕ) (q : List Item)
      → Represents tq mem capacity q
      → length q < capacity
      → (r : TaskQueue × TaskMemory) × (tskq_enqueue_head tq e mem ≡ ok r)
        × Represents r.0 r.1 capacity (e ∷ q)
  tskq_enqueue_head-Represents capacity q v room =
      let free : mem.pool.allocated < mem.pool.capacity = omega (arith, in_use v, v.bound) in
      (
        after_head tq mem e,
        enqueue_head-runs v.cells v.queue free,
        record {
          cells = (fresh mem, e) ∷ v.cells;
          queue = IsQueue-head v.cells v.queue free;
          contents = ap (λ l. e ∷ l) v.contents;
          bound = v.bound;
        },
      )

  -- With no task left, `tskq_enqueue_head` writes through the null pointer that the allocation
  -- returns.
  pub tskq_enqueue_head-fault :
      (capacity : ℕ) (q : List Item)
      → Represents tq mem capacity q
      → length q ≡ capacity
      → tskq_enqueue_head tq e mem ≡ fault
  unfolding tskq_enqueue_head
  tskq_enqueue_head-fault capacity q v full =
      rw (mempool_alloc-exhausted v.queue.pool (omega (arith, in_use v, v.bound)))
