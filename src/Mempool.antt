-- ===== src/Mempool.antt =====
-- include/base/mempool.h: a pool of equal items, whose free ones stand in `free_items` from index
-- `allocated` on.
pub mod Examples
pub mod Laws
pub mod Create
use psp.Base.{
  ℕ, zero, suc, Ptr, null, ◌+◌, ◌*◌, ◌/◌, ◌%◌, ◌^◌, ◌||◌, ltb, Option, none, some, leb, ◌==◌,
  if◌then◌else◌, update, add64, sub64,
}

-- `struct mempool`
pub record Mempool : Type 0 where
  pub free_items : ℕ → Ptr
  pub allocated : ℕ
  pub capacity : ℕ
  pub buf : Ptr
  pub len : ℕ
  pub item_len : ℕ
  pub num_items : ℕ

-- `mempool_alloc`
unfoldable pub mempool_alloc : Mempool → Ptr × Mempool
mempool_alloc m =
    if leb m.capacity m.allocated
    then (null, m)
    else (m.free_items m.allocated, record m { allocated = add64 m.allocated 1 })

-- `mempool_free`; its assertion is compiled out
unfoldable pub mempool_free : Ptr → Mempool → Mempool
mempool_free item m = record m {
  free_items = update m.free_items (sub64 m.allocated 1) item;
  allocated = sub64 m.allocated 1;
}

-- the last loop of `mempool_create`, by the rounds left
unfoldable pub fill_items : ℕ → ℕ → Ptr → ℕ → (ℕ → Ptr) → ℕ → Ptr
fill_items zero i p element_siz items = items
fill_items (suc rounds) i p element_siz items =
    fill_items rounds (i + 1) (p + element_siz) element_siz (update items i p)

-- `n_elements * element_siz`, a product of two `int`s that are above 0, as a `size_t`: it wraps
-- around as the build for this machine does, and a negative one is extended by its sign
abbrev pub int_product : ℕ → ℕ → ℕ
int_product n siz =
    let low = n * siz % 2 ^ 32 in
    if ltb low 2_147_483_648 then low else low + 18_446_744_069_414_584_320

-- `mempool_create`, with what the two calls of `malloc` return; `none` is -1, for which the fields
-- that were written so far are not kept. `free_items` stands for the contents of the second block.
unfoldable pub mempool_create : (buf items : Ptr) → (n_elements element_siz : ℕ) → Option Mempool
mempool_create buf items n_elements element_siz =
    if n_elements == 0 || element_siz == 0
    then none
    else if buf == null
    then none
    else if items == null
    then none
    else (let num = int_product n_elements element_siz / element_siz in
        some (record {
          free_items = fill_items num 0 buf element_siz (λ _. null);
          allocated = 0;
          capacity = num;
          buf = buf;
          len = int_product n_elements element_siz;
          item_len = element_siz;
          num_items = num;
        }))
