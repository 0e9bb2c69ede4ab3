-- ===== src/Context/Link.antt =====
-- Where `set_context_link` puts the link in the stack of a context.
use psp.Base.{Ptr, ◌+◌, ◌≤◌, ◌<◌, ◌≡◌, some, arith, update}
use psp.Context.{Ucontext, Contexts, link_address, context_alloc}
use psp.Context.Alloc.{stack_of}

-- the `ss_size` of a context that was just allocated
ss_size_alloc :
    (cs cs' : Contexts) (c : Ptr) → context_alloc cs ≡ (some c, cs') → (cs'.context c).ss_size ≡ 8
unfolding context_alloc update
ss_size_alloc cs cs' c e = ground arith

link_bounds :
    (c : Ucontext)
    → c.ss_size ≡ 8
    → (c.ss_sp + 40 < link_address c) × (link_address c + 8 ≤ c.ss_sp + 64)
link_bounds c size = omega arith

-- A context that `context_alloc` has returned keeps its link in the first 64 bytes of its stack of
-- 2048, since `ss_size` is the size of a pointer: less than 64 bytes lie between the start of the
-- stack and the link.
pub link_in_64_bytes :
    (cs cs' : Contexts) (c : Ptr)
    → context_alloc cs ≡ (some c, cs')
    → (stack_of cs' c + 40 < link_address (cs'.context c))
      × (link_address (cs'.context c) + 8 ≤ stack_of cs' c + 64)
link_in_64_bytes cs cs' c e = link_bounds (cs'.context c) (ss_size_alloc cs cs' c e)
