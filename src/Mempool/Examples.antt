-- ===== src/Mempool/Examples.antt =====
-- A pool of two items, at 100 and 101, of which none or one is in use.
use psp.Base.{ℕ, ◌+◌, ◌*◌, ◌≤◌, ◌<◌, ◌≡◌, some, arith, add64}
use psp.Mempool.{Mempool, mempool_free, mempool_create}
use psp.Mempool.Laws.{IsPool, Owned, Allocated, mempool_alloc-Allocated, Freed, mempool_free-Freed}
use psp.Mempool.Create.{mempool_create-IsPool}

-- so many of the two items are in use
abbrev pub two_items : ℕ → Mempool
two_items used = record {
  free_items = λ i. 100 + i;
  allocated = used;
  capacity = 2;
  buf = 100;
  len = 2;
  item_len = 1;
  num_items = 2;
}

pub two_items-IsPool : (used : ℕ) → used ≤ 2 → IsPool (two_items used)
two_items-IsPool used h = record {
  within = h;
  small = omega arith;
  set = λ i lo hi. omega arith;
  distinct = λ i j lo lt hi. omega arith;
}

pub first-Owned : Owned (two_items 1) 100
first-Owned = λ i lo hi. omega arith

mempool_alloc-Allocated_example :
    Allocated
      (two_items-IsPool 1 (omega arith))
      101
      (record (two_items 1) { allocated = add64 1 1 })
mempool_alloc-Allocated_example =
    mempool_alloc-Allocated (two_items-IsPool 1 (omega arith)) (omega arith)

mempool_free-Freed_example :
    Freed
      (two_items-IsPool 1 (omega arith))
      100
      first-Owned
      (omega arith)
      (mempool_free 100 (two_items 1))
mempool_free-Freed_example =
    mempool_free-Freed (two_items-IsPool 1 (omega arith)) 100 first-Owned (omega arith)
      (omega arith)

mempool_create-IsPool_example :
    (m : Mempool) × (mempool_create 4096 64 3 16 ≡ some m)
    × IsPool m
    × (m.allocated ≡ 0)
    × (m.capacity ≡ 3)
    × ((i : ℕ) → i < 3 → m.free_items i ≡ 4096 + i * 16)
mempool_create-IsPool_example =
    mempool_create-IsPool 4096 64 3 16 (omega arith) (omega arith) (omega arith) (omega arith)
      (omega arith)
