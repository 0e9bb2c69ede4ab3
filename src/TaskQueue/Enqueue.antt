-- ===== src/TaskQueue/Enqueue.antt =====
-- `tskq_enqueue_tail` and `tskq_enqueue_head` on a well-formed queue.
use psp.Base.{
  Ptr, null, ◌<◌, ◌≡◌, ◌≢◌, refl, ◌∙◌, sym, ap, false, [], ◌∷◌, ◌++◌, All, All-append,
  length-append, arith, ◌==◌, ne→==, update, add64,
}
use psp.Mempool.{Mempool}
use psp.Mempool.Laws.{IsPool, Owned, Allocated, mempool_alloc-Allocated}
use psp.TaskQueue.{Item, Task, TaskQueue, TaskMemory, set_item, set_next, tskq_enqueue_tail}
use psp.TaskQueue.Chain.{Cells, Chain, last_address, Apart, Distinct, IsQueue, items}

-- a list is not changed by writes elsewhere
pub Chain-frame :
    (t u : Ptr → Task) (p : Ptr) (xs : Cells)
    → All (λ (c : Ptr × Item). u c.0 ≡ t c.0) xs
    → Chain t p xs
    → Chain u p xs
Chain-frame t u p [] same c = c
Chain-frame t u p ((a, e) ∷ xs) same c =
    (c.0, c.1, rw same.0 c.2, rw same.0 (Chain-frame t u (t a).next xs same.1 c.3))

-- the last address is one of the list
last-ne : (a p : Ptr) (c : Ptr × Item) (xs : Cells) → Apart a (c ∷ xs) → last_address p (c ∷ xs) ≢ a
last-ne a p c [] apart = apart.0
last-ne a p c (d ∷ xs) apart = last-ne a c.0 d xs apart.1

-- a new task behind the last one: `u` is `t` but for the last task's link and the new task
module _ (t u : Ptr → Task) (last new : Ptr) (e : Item)
    (same : (b : Ptr) → b ≢ last → b ≢ new → u b ≡ t b)
    (linked : u last ≡ record (t last) { next = new }) (item : (u new).item ≡ e)
    (end : (u new).next ≡ null) (set : new ≢ null) where
  Chain-extend :
      (p a : Ptr) (d : Item) (xs : Cells)
      → last ≡ last_address a xs
      → Distinct ((a, d) ∷ xs)
      → Apart new ((a, d) ∷ xs)
      → Chain t p ((a, d) ∷ xs)
      → Chain u p ((a, d) ∷ (xs ++ ((new, e) ∷ [])))
  Chain-extend p a d [] at ds ap c =
      let here : u a ≡ record (t a) { next = new } = rw (← at) linked in
      (c.0, c.1, rw here c.2, (rw here, set, item, end))
  Chain-extend p a d ((b, f) ∷ xs) at ds ap c =
      let here : u a ≡ t a = same a (λ x. last-ne a a (b, f) xs ds.0 (sym at ∙ sym x)) ap.0 in
      (c.0, c.1, rw here c.2, rw here (Chain-extend (t a).next b f xs at ds.1 ap.1 c.3))

Apart-append :
    (a b : Ptr) (e : Item) (xs : Cells) → Apart a xs → b ≢ a → Apart a (xs ++ ((b, e) ∷ []))
Apart-append a b e xs h ne = All-append (λ (c : Ptr × Item). c.0 ≢ a) xs ((b, e) ∷ []) h (ne, tt)

Distinct-append :
    (b : Ptr) (e : Item) (xs : Cells) → Distinct xs → Apart b xs → Distinct (xs ++ ((b, e) ∷ []))
Distinct-append b e [] d h = (tt, tt)
Distinct-append b e ((a, f) ∷ xs) d h =
    (Apart-append a b e xs d.0 (λ x. h.0 (sym x)), Distinct-append b e xs d.1 h.1)

last-append : (p b : Ptr) (e : Item) (xs : Cells) → last_address p (xs ++ ((b, e) ∷ [])) ≡ b
last-append p b e [] = refl
last-append p b e ((a, f) ∷ xs) = last-append a b e xs

pub items-append :
    (b : Ptr) (e : Item) (xs : Cells) → items (xs ++ ((b, e) ∷ [])) ≡ items xs ++ (e ∷ [])
items-append b e [] = refl
items-append b e ((a, f) ∷ xs) = ap (λ l. f ∷ l) (items-append b e xs)

-- the addresses in use are not the one that is allocated
pub Owned-Apart :
    {pool pool' : Mempool} {a : Ptr} (v : IsPool pool) (got : Allocated v a pool') (xs : Cells)
    → All (λ (c : Ptr × Item). Owned pool c.0) xs
    → Apart a xs × All (λ (c : Ptr × Item). Owned pool' c.0) xs
Owned-Apart v got [] h = (tt, tt)
Owned-Apart v got ((p, e) ∷ xs) h =
    let rest = Owned-Apart v got xs h.1 in ((got.was_free p h.0, rest.0), (got.keeps p h.0, rest.1))

-- the tasks after the three writes of an enqueue at the tail
abbrev appended : (Ptr → Task) → Ptr → Ptr → Item → Ptr → Task
appended t last new e = set_next new null (set_next last new (set_item new e t))

first_task :
    (t : Ptr → Task) (new : Ptr) (e : Item)
    → set_next new null (set_item new e t) new ≡ record { item = e; next = null }
unfolding update
first_task t new e = ground arith

module _ (t : Ptr → Task) (last new : Ptr) where
  appended_same : (b : Ptr) (e : Item) → b ≢ last → b ≢ new → appended t last new e b ≡ t b
  unfolding update
  appended_same b e nl nn = ground arith

  appended_last :
      (e : Item) → last ≢ new → appended t last new e last ≡ record (t last) { next = new }
  unfolding update
  appended_last e ne = ground arith

  appended_new :
      (e : Item) → last ≢ new → appended t last new e new ≡ record { item = e; next = null }
  unfolding update
  appended_new e ne = ground arith

-- the task that the next allocation hands out
abbrev pub fresh : TaskMemory → Ptr
fresh mem = mem.pool.free_items mem.pool.allocated

module _ {tq : TaskQueue} {mem : TaskMemory} (e : Item)
    (room : mem.pool.allocated < mem.pool.capacity) where
  -- on an empty queue the new task is head and tail
  pub enqueue_tail-nil :
      IsQueue tq mem []
      → let (tq', mem') = tskq_enqueue_tail tq e mem in
        IsQueue tq' mem' (((fresh mem), e) ∷ []) × (mem'.pool.capacity ≡ mem.pool.capacity)
  unfolding tskq_enqueue_tail
  enqueue_tail-nil v =
      let got = mempool_alloc-Allocated v.pool room in
      let start = first_task mem.task (fresh mem) in
      rw (got.result, ne→== (fresh mem) null got.ne_null, v.chain)
        (
          record {
            chain = (
              refl,
              got.ne_null,
              ap (λ (t : Task). t.item) (start e),
              ap (λ (t : Task). t.next) (start e),
            );
            last = λ _. refl;
            distinct = (tt, tt);
            owned = (got.owned, tt);
            pool = got.pool;
            count = omega (arith, got.count, v.count);
          },
          got.same_capacity,
        )

  -- on another, it is linked behind the last one
  enqueue_tail-runs :
      (a : Ptr) (d : Item) (xs : Cells)
      → IsQueue tq mem ((a, d) ∷ xs)
      → tskq_enqueue_tail tq e mem ≡ (
        record tq { tail = (fresh mem) },
        record {
          pool = record mem.pool { allocated = add64 mem.pool.allocated 1 };
          task = appended mem.task tq.tail (fresh mem) e;
        },
      )
  unfolding tskq_enqueue_tail
  enqueue_tail-runs a d xs v =
      let got = mempool_alloc-Allocated v.pool room in
      let used : (tq.head == null) ≡ false = rw v.chain.0 (ne→== a null v.chain.1) in
      rw (got.result, ne→== (fresh mem) null got.ne_null, used)

  pub enqueue_tail-cons :
      (a : Ptr) (d : Item) (xs : Cells)
      → IsQueue tq mem ((a, d) ∷ xs)
      → let (tq', mem') = tskq_enqueue_tail tq e mem in
        IsQueue tq' mem' ((a, d) ∷ (xs ++ (((fresh mem), e) ∷ [])))
        × (mem'.pool.capacity ≡ mem.pool.capacity)
  enqueue_tail-cons a d xs v =
      let got = mempool_alloc-Allocated v.pool room in
      let new = Owned-Apart v.pool got ((a, d) ∷ xs) v.owned in
      let last : tq.tail ≡ last_address a xs = v.last (omega arith) in
      let apart : tq.tail ≢ (fresh mem) = rw last (last-ne (fresh mem) null (a, d) xs new.0) in
      rw (enqueue_tail-runs a d xs v) (
        record {
          chain =
              Chain-extend mem.task (appended mem.task tq.tail (fresh mem) e) tq.tail (fresh mem) e
                (λ b. appended_same mem.task tq.tail (fresh mem) b e)
                (appended_last mem.task tq.tail (fresh mem) e apart)
                (ap (λ (t : Task). t.item) (appended_new mem.task tq.tail (fresh mem) e apart))
                (ap (λ (t : Task). t.next) (appended_new mem.task tq.tail (fresh mem) e apart))
                got.ne_null tq.head a d xs last v.distinct new.0 v.chain;
          last = λ _. sym (last-append a (fresh mem) e xs);
          distinct = Distinct-append (fresh mem) e ((a, d) ∷ xs) v.distinct new.0;
          owned =
              All-append
                (λ (c : Ptr × Item).
                  Owned (record mem.pool { allocated = add64 mem.pool.allocated 1 }) c.0)
                ((a, d) ∷ xs) ((fresh mem, e) ∷ []) new.1 (got.owned, tt);
          pool = got.pool;
          count = omega (arith, got.count, v.count, length-append xs (((fresh mem), e) ∷ []));
        },
        got.same_capacity,
      )
