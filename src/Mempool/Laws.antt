-- ===== src/Mempool/Laws.antt =====
-- What `mempool_alloc` and `mempool_free` promise: an item is never handed out twice.
use psp.Base.{
  ℕ, Ptr, null, ◌+◌, ◌-◌, ◌^◌, ◌≤◌, ◌<◌, ◌≡◌, ◌≢◌, refl, true, false, arith, leb, update,
  update_self, update_ne, ◌∙◌, add64, sub64,
}
use mathlib.Core.Path.{sym}
use psp.Mempool.{Mempool, mempool_alloc, mempool_free}

-- the free items are distinct and not null
pub record IsPool (m : Mempool) : Type 0 where
  pub within : m.allocated ≤ m.capacity
  pub small : m.capacity < 2 ^ 64
  pub set : (i : ℕ) → m.allocated ≤ i → i < m.capacity → m.free_items i ≢ null
  pub distinct :
      (i j : ℕ) → m.allocated ≤ i → i < j → j < m.capacity → m.free_items i ≢ m.free_items j

-- `p` is not among the free items
abbrev pub Owned : Mempool → Ptr → Type 0
Owned m p = (i : ℕ) → m.allocated ≤ i → i < m.capacity → m.free_items i ≢ p

module _ {m : Mempool} (v : IsPool m) where
  -- what a successful allocation gives
  pub record Allocated (a : Ptr) (m' : Mempool) : Type 0 where
    pub result : mempool_alloc m ≡ (a, m')
    pub ne_null : a ≢ null
    pub was_free : (p : Ptr) → Owned m p → p ≢ a
    pub owned : Owned m' a
    pub keeps : (p : Ptr) → Owned m p → Owned m' p
    pub pool : IsPool m'
    pub count : m'.allocated ≡ m.allocated + 1
    pub same_capacity : m'.capacity ≡ m.capacity

  -- While the pool is not exhausted, `mempool_alloc` returns an item that was free, is not null,
  -- and is no longer free; every item in use stays so.
  pub mempool_alloc-Allocated :
      m.allocated < m.capacity
      → Allocated (m.free_items m.allocated) (record m { allocated = add64 m.allocated 1 })
  unfolding mempool_alloc
  mempool_alloc-Allocated room = record {
    result = rw more;
    ne_null = v.set m.allocated (omega arith) room;
    was_free = λ p o e. o m.allocated (omega arith) room (sym e);
    owned = λ i lo hi e. v.distinct m.allocated i (omega arith) (omega (arith, next)) hi (sym e);
    keeps = λ p o i lo hi. o i (omega (arith, next)) hi;
    pool = record {
      within = omega (arith, next);
      small = v.small;
      set = λ i lo hi. v.set i (omega (arith, next)) hi;
      distinct = λ i j lo lt hi. v.distinct i j (omega (arith, next)) lt hi;
    };
    count = next;
    same_capacity = refl;
  }
    where
      more : leb m.capacity m.allocated ≡ false
      more = ground arith

      next : add64 m.allocated 1 ≡ m.allocated + 1
      next = omega (arith, v.small)

  -- An exhausted pool returns NULL and stays as it is.
  pub mempool_alloc-exhausted : m.allocated ≡ m.capacity → mempool_alloc m ≡ (null, m)
  unfolding mempool_alloc
  mempool_alloc-exhausted full =
      let done : leb m.capacity m.allocated ≡ true = ground arith in rw done

module _ {m : Mempool} (v : IsPool m) (item : Ptr) (owned : Owned m item)
    (used : 1 ≤ m.allocated) where
  before : sub64 m.allocated 1 ≡ m.allocated - 1
  before = omega (arith, v.small, v.within)

  -- giving back an item in use leaves a pool
  pub mempool_free-IsPool : item ≢ null → IsPool (mempool_free item m)
  unfolding mempool_free update
  mempool_free-IsPool item_set = record {
    within = omega (arith, before, v.within);
    small = v.small;
    set = λ i lo hi. ground (arith, before, v.set i);
    distinct = λ i j lo lt hi. ground (arith, before, v.distinct i j, owned j);
  }

  pub allocated-mempool_free : (mempool_free item m).allocated ≡ m.allocated - 1
  unfolding mempool_free
  allocated-mempool_free = before

  pub capacity-mempool_free : (mempool_free item m).capacity ≡ m.capacity
  unfolding mempool_free
  capacity-mempool_free = refl

  -- After `mempool_free` of an item in use every other item in use still is.
  pub Owned-mempool_free : (p : Ptr) → Owned m p → p ≢ item → Owned (mempool_free item m) p
  unfolding mempool_free update
  Owned-mempool_free p o ne i lo hi = ground (arith, before, o i)

  -- After `mempool_free` of an item in use `mempool_alloc` returns that item.
  pub mempool_alloc-mempool_free : (mempool_alloc (mempool_free item m)).0 ≡ item
  unfolding mempool_alloc mempool_free
  mempool_alloc-mempool_free =
      let more : leb m.capacity (sub64 m.allocated 1) ≡ false = ground (arith, before, v.within) in
      rw (more, update_self)

  -- what giving back an item gives
  pub record Freed (m' : Mempool) : Type 0 where
    pub pool : IsPool m'
    pub count : m'.allocated + 1 ≡ m.allocated
    pub same_capacity : m'.capacity ≡ m.capacity
    pub item_free : (i : ℕ) × (m'.allocated ≤ i) × (i < m'.capacity) × (m'.free_items i ≡ item)
    pub others_free : (p : Ptr) → Owned m' p → Owned m p
    pub keeps : (p : Ptr) → Owned m p → p ≢ item → Owned m' p
    pub next : (mempool_alloc m').0 ≡ item

  -- After `mempool_free` of an item in use, which is not null, the pool has one item in use less: the
  -- item is free and the next `mempool_alloc` returns it, the items that were free still are, and
  -- every other item in use stays so.
  pub mempool_free-Freed : item ≢ null → Freed (mempool_free item m)
  unfolding mempool_free
  mempool_free-Freed item_set = record {
    pool = mempool_free-IsPool item_set;
    count = omega (arith, before, used);
    same_capacity = refl;
    item_free = (
      sub64 m.allocated 1,
      omega arith,
      omega (arith, before, v.within, used),
      update_self m.free_items (sub64 m.allocated 1) item,
    );
    others_free = λ p o i lo hi e. o i (omega (arith, before, lo)) hi (
        update_ne m.free_items (sub64 m.allocated 1) item i
          (λ f. omega (arith, before, lo, f, used))
        ∙ e);
    keeps = Owned-mempool_free;
    next = mempool_alloc-mempool_free;
  }
