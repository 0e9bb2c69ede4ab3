-- ===== src/Context/Alloc.antt =====
-- `context_alloc` and `context_free`: every context in use has a stack of its own.
use psp.Base.{
  Ptr, null, ◌≤◌, ◌<◌, ◌≡◌, ◌≢◌, ap, none, some, List, [], ◌∷◌, All, length, arith, ne→==, update,
  update_self, update_ne, add64, add64,
}
use psp.Mempool.{Mempool}
use psp.Mempool.Laws.{
  IsPool, Owned, Allocated, mempool_alloc-Allocated, mempool_alloc-exhausted, mempool_free-IsPool,
  allocated-mempool_free, Owned-mempool_free,
}
use psp.Context.{Ucontext, Contexts, context_alloc, context_free}

abbrev pub stack_of : Contexts → Ptr → Ptr
stack_of cs c = (cs.context c).ss_sp

-- the contexts of the list, and their stacks, are not `c` and not `s`
abbrev pub Unused : (Ptr → Ptr) → Ptr → Ptr → List Ptr → Type 0
Unused stack c s live = All (λ d. (d ≢ c) × (stack d ≢ s)) live

-- contexts and stacks are all different
abbrev pub Separate : (Ptr → Ptr) → List Ptr → Type 0
Separate stack [] = Unit
Separate stack (c ∷ live) = Unused stack c (stack c) live × Separate stack live

abbrev pub InUse : Contexts → Ptr → Type 0
InUse cs c =
    Owned cs.context_pool c
    × (c ≢ null)
    × Owned cs.stack_pool (stack_of cs c)
    × (stack_of cs c ≢ null)

-- the contexts in use are these
pub record IsLive (cs : Contexts) (live : List Ptr) : Type 0 where
  pub contexts : IsPool cs.context_pool
  pub stacks : IsPool cs.stack_pool
  pub separate : Separate (stack_of cs) live
  pub in_use : All (InUse cs) live
  pub context_count : cs.context_pool.allocated ≡ length live
  pub stack_count : cs.stack_pool.allocated ≡ length live

-- the contexts after an allocation from both pools
abbrev next_item : Mempool → Ptr
next_item m = m.free_items m.allocated

abbrev taken : Mempool → Mempool
taken m = record m { allocated = add64 m.allocated 1 }

abbrev allocated : Contexts → Contexts
allocated cs = record cs {
  context_pool = taken cs.context_pool;
  stack_pool = taken cs.stack_pool;
  context =
      update cs.context (next_item cs.context_pool)
        (record (cs.context (next_item cs.context_pool)) {
          ss_sp = next_item cs.stack_pool;
          ss_size = 8;
        });
}

-- the same stacks, read by another function
module _ (stack stack' : Ptr → Ptr) where
  Unused-cong :
      (c s : Ptr) (live : List Ptr)
      → All (λ d. stack' d ≡ stack d) live
      → Unused stack c s live
      → Unused stack' c s live
  Unused-cong c s [] same u = tt
  Unused-cong c s (d ∷ live) same u = ((u.0.0, rw same.0 u.0.1), Unused-cong c s live same.1 u.1)

  Separate-cong :
      (live : List Ptr)
      → All (λ d. stack' d ≡ stack d) live
      → Separate stack live
      → Separate stack' live
  Separate-cong [] same u = tt
  Separate-cong (d ∷ live) same u =
      (rw same.0 (Unused-cong d (stack d) live same.1 u.0), Separate-cong live same.1 u.1)

module _ (cs : Contexts) (contexts : IsPool cs.context_pool) (stacks : IsPool cs.stack_pool)
    (contexts_left : cs.context_pool.allocated < cs.context_pool.capacity)
    (stacks_left : cs.stack_pool.allocated < cs.stack_pool.capacity) where
  abbrev got_context : Allocated contexts (next_item cs.context_pool) (taken cs.context_pool)
  got_context = mempool_alloc-Allocated contexts contexts_left

  abbrev got_stack : Allocated stacks (next_item cs.stack_pool) (taken cs.stack_pool)
  got_stack = mempool_alloc-Allocated stacks stacks_left

  alloc_runs : context_alloc cs ≡ (some (next_item cs.context_pool), allocated cs)
  unfolding context_alloc
  alloc_runs = rw (
    got_context.result,
    ne→== (next_item cs.context_pool) null got_context.ne_null,
    got_stack.result,
    ne→== (next_item cs.stack_pool) null got_stack.ne_null,
  )

  -- the new context and its stack were not in use
  new-Unused :
      (live : List Ptr)
      → All (InUse cs) live
      → Unused (stack_of cs) (next_item cs.context_pool) (next_item cs.stack_pool) live
  new-Unused [] h = tt
  new-Unused (d ∷ live) h = (
    (got_context.was_free d h.0.0, got_stack.was_free (stack_of cs d) h.0.2),
    new-Unused live h.1,
  )

  -- the contexts in use keep their stacks
  same_stacks :
      (live : List Ptr)
      → Unused (stack_of cs) (next_item cs.context_pool) (next_item cs.stack_pool) live
      → All (λ d. stack_of (allocated cs) d ≡ stack_of cs d) live
  same_stacks [] u = tt
  same_stacks (d ∷ live) u = (
    ap (λ (x : Ucontext). x.ss_sp) (update_ne cs.context (next_item cs.context_pool) _ d u.0.0),
    same_stacks live u.1,
  )

  still-InUse :
      (live : List Ptr)
      → All (λ d. stack_of (allocated cs) d ≡ stack_of cs d) live
      → All (InUse cs) live
      → All (InUse (allocated cs)) live
  still-InUse [] same h = tt
  still-InUse (d ∷ live) same h = (
    (
      got_context.keeps d h.0.0,
      h.0.1,
      rw same.0 (got_stack.keeps (stack_of cs d) h.0.2),
      rw same.0 h.0.3,
    ),
    still-InUse live same.1 h.1,
  )

  own_stack : stack_of (allocated cs) (next_item cs.context_pool) ≡ next_item cs.stack_pool
  own_stack = ap (λ (x : Ucontext). x.ss_sp) (update_self cs.context (next_item cs.context_pool) _)

-- While both pools have items left, `context_alloc` returns a context that was not in use, with a
-- stack that no context in use has; the contexts in use are then the old ones and this one.
pub context_alloc-IsLive :
    {cs : Contexts} (live : List Ptr)
    → IsLive cs live
    → cs.context_pool.allocated < cs.context_pool.capacity
    → cs.stack_pool.allocated < cs.stack_pool.capacity
    → (c : Ptr) × (cs' : Contexts) × (context_alloc cs ≡ (some c, cs')) × IsLive cs' (c ∷ live)
context_alloc-IsLive {cs} live v cl sl =
    let unused = new-Unused cs v.contexts v.stacks cl sl live v.in_use in
    let same = same_stacks cs v.contexts v.stacks cl sl live unused in
    let c = got_context cs v.contexts v.stacks cl sl in
    let s = got_stack cs v.contexts v.stacks cl sl in
    let own = own_stack cs v.contexts v.stacks cl sl in
    (
      next_item cs.context_pool,
      allocated cs,
      alloc_runs cs v.contexts v.stacks cl sl,
      record {
        contexts = c.pool;
        stacks = s.pool;
        separate = (
          rw own (
              Unused-cong (stack_of cs) (stack_of (allocated cs)) (next_item cs.context_pool)
                (next_item cs.stack_pool) live same unused),
          Separate-cong (stack_of cs) (stack_of (allocated cs)) live same v.separate,
        );
        in_use = (
          (c.owned, c.ne_null, rw own s.owned, rw own s.ne_null),
          still-InUse cs v.contexts v.stacks cl sl live same v.in_use,
        );
        context_count = omega (arith, c.count, v.context_count);
        stack_count = omega (arith, s.count, v.stack_count);
      },
    )

-- what is in use stays so when a context that is not among it is freed
freed-InUse :
    (cs : Contexts) (contexts : IsPool cs.context_pool) (stacks : IsPool cs.stack_pool) (c : Ptr)
    (u : InUse cs c) (n : 1 ≤ cs.context_pool.allocated) (k : 1 ≤ cs.stack_pool.allocated)
    (live : List Ptr)
    → Unused (stack_of cs) c (stack_of cs c) live
    → All (InUse cs) live
    → All (InUse (context_free c cs)) live
unfolding context_free
freed-InUse cs contexts stacks c u n k [] un h = tt
freed-InUse cs contexts stacks c u n k (d ∷ live) un h = (
  (
    Owned-mempool_free contexts c u.0 n d h.0.0 un.0.0,
    h.0.1,
    Owned-mempool_free stacks (stack_of cs c) u.2 k (stack_of cs d) h.0.2 un.0.1,
    h.0.3,
  ),
  freed-InUse cs contexts stacks c u n k live un.1 h.1,
)

-- `context_free` of a context in use gives its context and its stack back, and leaves the others
-- in use.
pub context_free-IsLive :
    {cs : Contexts} (c : Ptr) (live : List Ptr)
    → IsLive cs (c ∷ live)
    → IsLive (context_free c cs) live
unfolding context_free
context_free-IsLive {cs} c live v =
    let n : 1 ≤ cs.context_pool.allocated = omega (arith, v.context_count) in
    let k : 1 ≤ cs.stack_pool.allocated = omega (arith, v.stack_count) in
    let u = v.in_use.0 in
    record {
      contexts = mempool_free-IsPool v.contexts c u.0 n u.1;
      stacks = mempool_free-IsPool v.stacks (stack_of cs c) u.2 k u.3;
      separate = v.separate.1;
      in_use = freed-InUse cs v.contexts v.stacks c u n k live v.separate.0 v.in_use.1;
      context_count = omega (arith, allocated-mempool_free v.contexts c u.0 n, v.context_count);
      stack_count =
          omega (arith, allocated-mempool_free v.stacks (stack_of cs c) u.2 k, v.stack_count);
    }

-- With no context left, `context_alloc` fails and changes nothing.
pub context_alloc-exhausted :
    {cs : Contexts} (live : List Ptr)
    → IsLive cs live
    → cs.context_pool.allocated ≡ cs.context_pool.capacity
    → context_alloc cs ≡ (none, cs)
unfolding context_alloc
context_alloc-exhausted live v full = rw (mempool_alloc-exhausted v.contexts full)
