-- ===== src/TaskQueue.antt =====
-- include/psp/taskqueue.h: the queue of tasks, a linked list whose nodes come from a pool.
pub mod Examples
pub mod Chain
pub mod Enqueue
pub mod EnqueueHead
pub mod Dequeue
pub mod Fifo
pub mod Refine
use psp.Base.{
  ℕ, Ptr, null, ◌+◌, ◌-◌, ◌/◌, Bool, true, false, Option, none, some, ltb, ◌==◌, if◌then◌else◌,
  update, Run, ok, fault, sub64,
}
use psp.Mempool.{Mempool, mempool_alloc, mempool_free}

-- what a task stands for: the arguments of an enqueue, and the results of a dequeue
pub record Item : Type 0 where
  pub runnable : Ptr
  pub mbuf : Ptr
  pub type : ℕ
  pub category : ℕ
  pub timestamp : ℕ

-- `struct task`
pub record Task : Type 0 where
  pub item : Item
  pub next : Ptr

-- `struct task_queue`
pub record TaskQueue : Type 0 where
  pub head : Ptr
  pub tail : Ptr

-- `task_mempool`, and the tasks by address
pub record TaskMemory : Type 0 where
  pub pool : Mempool
  pub task : Ptr → Task

abbrev pub set_item : Ptr → Item → (Ptr → Task) → Ptr → Task
set_item p e t = update t p (record (t p) { item = e })

abbrev pub set_next : Ptr → Ptr → (Ptr → Task) → Ptr → Task
set_next p q t = update t p (record (t p) { next = q })

-- `tskq_enqueue_head`; it does not test what the allocation returned
unfoldable pub tskq_enqueue_head : TaskQueue → Item → TaskMemory → Run (TaskQueue × TaskMemory)
tskq_enqueue_head tq e mem =
    let (tsk, pool) = mempool_alloc mem.pool in
    if tsk == null
    then fault
    else (let filled = set_item tsk e mem.task in
        if tq.head == null
        then ok (
          record { head = tsk; tail = tsk },
          record { pool = pool; task = set_next tsk null filled },
        )
        else ok
            (record tq { head = tsk }, record { pool = pool; task = set_next tsk tq.head filled }))

-- `tskq_enqueue_tail`
unfoldable pub tskq_enqueue_tail : TaskQueue → Item → TaskMemory → TaskQueue × TaskMemory
tskq_enqueue_tail tq e mem =
    let (tsk, pool) = mempool_alloc mem.pool in
    if tsk == null
    then (tq, record mem { pool = pool })
    else (let filled = set_item tsk e mem.task in
        if tq.head == null
        then (
          record { head = tsk; tail = tsk },
          record { pool = pool; task = set_next tsk null filled },
        )
        else (
          record tq { tail = tsk },
          record { pool = pool; task = set_next tsk null (set_next tq.tail tsk filled) },
        ))

-- `tskq_dequeue`; `none` is -1
unfoldable pub tskq_dequeue : TaskQueue → TaskMemory → Option Item × TaskQueue × TaskMemory
tskq_dequeue tq mem =
    if tq.head == null
    then (none, tq, mem)
    else (let head = (mem.task tq.head).next in
        (
          some (mem.task tq.head).item,
          record { head = head; tail = if head == null then null else tq.tail },
          record mem { pool = mempool_free tq.head mem.pool },
        ))

-- `get_queue_timestamp`; `none` is -1
unfoldable pub get_queue_timestamp : TaskQueue → TaskMemory → Option ℕ
get_queue_timestamp tq mem =
    if tq.head == null then none else some (mem.task tq.head).item.timestamp

-- `naive_tskq_dequeue`, whose loop has one round
unfoldable pub naive_tskq_dequeue : TaskQueue → TaskMemory → Option Item × TaskQueue × TaskMemory
naive_tskq_dequeue tq mem =
    let (r, tq', mem') = tskq_dequeue tq mem in
    elim r [ some e ↦ (some e, tq', mem') | none ↦ (none, tq', mem') ]

-- the difference of two times as an `int64_t`, divided by 1000 towards 0: is it above 0?
abbrev pub waited_long : ℕ → ℕ → Bool
waited_long cur_time stamp =
    let diff = sub64 cur_time stamp in
    if ltb diff 9_223_372_036_854_775_808 then ltb 0 (diff / 1000) else false

-- `smart_tskq_dequeue`, whose loop has one round
unfoldable pub smart_tskq_dequeue :
    TaskQueue → ℕ → TaskMemory → Option Item × TaskQueue × TaskMemory
smart_tskq_dequeue tq cur_time mem = elim (get_queue_timestamp tq mem) [
  | none ↦ (none, tq, mem)
  | some stamp ↦ if waited_long cur_time stamp then tskq_dequeue tq mem else (none, tq, mem)
]
