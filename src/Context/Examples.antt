-- ===== src/Context/Examples.antt =====
-- Contexts from a pool of two, with stacks from a pool of two.
use psp.Base.{ℕ, Ptr, ◌≡◌, refl, some, [], ◌∷◌, arith}
use psp.Mempool.Examples.{two_items, two_items-IsPool, first-Owned}
use psp.Context.{Contexts, context_alloc, context_free}
use psp.Context.Alloc.{IsLive, context_alloc-IsLive, context_free-IsLive}

-- so many contexts, each with a stack, are in use
abbrev pub contexts : ℕ → Contexts
contexts used = record {
  context_pool = two_items used;
  stack_pool = two_items used;
  context = λ p. record { ss_sp = p; ss_size = 8; uc_link = 0 };
  word = λ p. 0;
}

pub none-IsLive : IsLive (contexts 0) []
none-IsLive = record {
  contexts = two_items-IsPool 0 (omega arith);
  stacks = two_items-IsPool 0 (omega arith);
  separate = tt;
  in_use = tt;
  context_count = refl;
  stack_count = refl;
}

one-IsLive : IsLive (contexts 1) (100 ∷ [])
one-IsLive = record {
  contexts = two_items-IsPool 1 (omega arith);
  stacks = two_items-IsPool 1 (omega arith);
  separate = (tt, tt);
  in_use = ((first-Owned, omega arith, first-Owned, omega arith), tt);
  context_count = refl;
  stack_count = refl;
}

pub two-IsLive : IsLive (contexts 2) (101 ∷ 100 ∷ [])
two-IsLive = record {
  contexts = two_items-IsPool 2 (omega arith);
  stacks = two_items-IsPool 2 (omega arith);
  separate = (((omega arith, omega arith), tt), (tt, tt));
  in_use = (
    ((λ i lo hi. omega arith), omega arith, (λ i lo hi. omega arith), omega arith),
    (((λ i lo hi. omega arith), omega arith, (λ i lo hi. omega arith), omega arith), tt),
  );
  context_count = refl;
  stack_count = refl;
}

context_alloc-IsLive_example :
    (c : Ptr) × (cs' : Contexts) × (context_alloc (contexts 1) ≡ (some c, cs'))
    × IsLive cs' (c ∷ 100 ∷ [])
context_alloc-IsLive_example =
    context_alloc-IsLive (100 ∷ []) one-IsLive (omega arith) (omega arith)

context_free-IsLive_example : IsLive (context_free 101 (contexts 2)) (100 ∷ [])
context_free-IsLive_example = context_free-IsLive 101 (100 ∷ []) two-IsLive
