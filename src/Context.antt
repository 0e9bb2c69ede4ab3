-- ===== src/Context.antt =====
-- The second half of include/psp/taskqueue.h: execution contexts and their stacks.
pub mod Examples
pub mod Alloc
pub mod Link
use psp.Base.{ℕ, Ptr, null, ◌+◌, ◌-◌, ◌*◌, ◌/◌, Option, none, some, ◌==◌, if◌then◌else◌, update}
use psp.Mempool.{Mempool, mempool_alloc, mempool_free}

-- the parts of a `ucontext_t` that the scheduler sets itself
pub record Ucontext : Type 0 where
  pub ss_sp : Ptr
  pub ss_size : ℕ
  pub uc_link : Ptr

-- `context_pool`, `stack_pool`, the contexts by address, and the words of the stacks by address
pub record Contexts : Type 0 where
  pub context_pool : Mempool
  pub stack_pool : Mempool
  pub context : Ptr → Ucontext
  pub word : Ptr → ℕ

-- `sizeof(stack)`, of a `void *`
abbrev pub sizeof_stack : ℕ
sizeof_stack = 8

-- `STACK_SIZE`
abbrev pub stack_size : ℕ
stack_size = 2048

-- `context_alloc`; `none` is -1
unfoldable pub context_alloc : Contexts → Option Ptr × Contexts
context_alloc cs =
    let (cont, context_pool) = mempool_alloc cs.context_pool in
    if cont == null
    then (none, record cs { context_pool = context_pool })
    else (let (stack, stack_pool) = mempool_alloc cs.stack_pool in
        if stack == null
        then (
          none,
          record cs { context_pool = mempool_free cont context_pool; stack_pool = stack_pool },
        )
        else (
          some cont,
          record cs {
            context_pool = context_pool;
            stack_pool = stack_pool;
            context =
                update cs.context cont
                  (record (cs.context cont) { ss_sp = stack; ss_size = sizeof_stack });
          },
        ))

-- `context_free`
unfoldable pub context_free : Ptr → Contexts → Contexts
context_free c cs = record cs {
  stack_pool = mempool_free (cs.context c).ss_sp cs.stack_pool;
  context_pool = mempool_free c cs.context_pool;
}

-- the address that `set_context_link` stores the link at: `ss_size` words above `ss_sp`, one word
-- down, aligned to 16 bytes, one word down, and then the word above
abbrev pub link_address : Ucontext → Ptr
link_address c = (c.ss_sp + 8 * c.ss_size - 8) / 16 * 16 - 8 + 8

-- `set_context_link`
unfoldable pub set_context_link : Ptr → Ptr → Contexts → Contexts
set_context_link c uc_link cs = record cs {
  context = update cs.context c (record (cs.context c) { uc_link = uc_link });
  word = update cs.word (link_address (cs.context c)) uc_link;
}
