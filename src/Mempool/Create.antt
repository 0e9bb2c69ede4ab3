-- ===== src/Mempool/Create.antt =====
-- `mempool_create`: the new pool holds every item of its buffer.
use psp.Base.{
  ℕ, zero, suc, Ptr, null, ◌+◌, ◌-◌, ◌*◌, ◌^◌, ◌≤◌, ◌<◌, ◌≡◌, ◌≢◌, refl, some, true, ltb, ◌%◌, ◌∙◌,
  arith, update, update_self, update_ne, ne→==,
}
use native.Mathlib.Decide.{ℕ_discrete}
use native.Mathlib.Nat.{mul-div_cancel, mul-lt-mul_of_pos_right}
use psp.Mempool.{Mempool, int_product, fill_items, mempool_create}
use psp.Mempool.Laws.{IsPool}

multiples : (i j p siz : ℕ) → i < j → p + siz + (j - (i + 1)) * siz ≡ p + (j - i) * siz
multiples i j p siz lt = let one : j - i ≡ suc (j - (i + 1)) = omega arith in rw one (grind arith)

-- the loop does not come back to an index behind it
fill_items-below :
    (rounds i : ℕ) (p siz : ℕ) (items : ℕ → Ptr) (j : ℕ)
    → j < i
    → fill_items rounds i p siz items j ≡ items j
unfolding fill_items
fill_items-below zero i p siz items j lt = refl
fill_items-below (suc n) i p siz items j lt =
    fill_items-below n (i + 1) (p + siz) siz (update items i p) j (omega arith)
    ∙ update_ne items i p j (omega arith)

fill_items_lem :
    (rounds i : ℕ) (p siz : ℕ) (items : ℕ → Ptr) (j : ℕ)
    → i ≤ j
    → j < i + rounds
    → fill_items rounds i p siz items j ≡ p + (j - i) * siz
unfolding fill_items
fill_items_lem zero i p siz items j lo hi = absurd (omega arith)
fill_items_lem (suc n) i p siz items j lo hi = elim (ℕ_discrete j i) [
  | yes here ↦
      fill_items-below n (i + 1) (p + siz) siz (update items i p) j (omega arith)
      ∙ rw (here, update_self) (grind arith)
  | no later ↦
      fill_items_lem n (i + 1) (p + siz) siz (update items i p) j (omega arith) (omega arith)
      ∙ multiples i j p siz (omega arith)
]

-- the product of two `int`s that does not overflow
int_product_lem : (n siz : ℕ) → n * siz < 2 ^ 31 → int_product n siz ≡ n * siz
int_product_lem n siz small =
    let same : n * siz % 2 ^ 32 ≡ n * siz = omega arith in
    let low : ltb (n * siz) 2_147_483_648 ≡ true = ground arith in rw (same, low)

le-product : (n siz : ℕ) → 1 ≤ siz → n ≤ n * siz
le-product n zero hs = absurd (omega arith)
le-product n (suc k) hs = grind arith

-- When both allocations succeed and the size of the buffer fits an `int`, `mempool_create` gives a
-- pool in which all the `n` items of the buffer are free, the `i`-th of them `i` item lengths
-- behind its start.
pub mempool_create-IsPool :
    (buf items : Ptr) (n siz : ℕ)
    → buf ≢ null
    → items ≢ null
    → 1 ≤ n
    → 1 ≤ siz
    → n * siz < 2 ^ 31
    → (m : Mempool) × (mempool_create buf items n siz ≡ some m)
      × IsPool m
      × (m.allocated ≡ 0)
      × (m.capacity ≡ n)
      × ((i : ℕ) → i < n → m.free_items i ≡ buf + i * siz)
unfolding mempool_create
mempool_create-IsPool buf items n siz b it hn hs small =
    rw
      (
        ne→== n 0 (omega arith),
        ne→== siz 0 (omega arith),
        ne→== buf 0 b,
        ne→== items 0 it,
        int_product_lem n siz small,
        mul-div_cancel n hs,
      )
      (
        _,
        refl,
        record {
          within = omega arith;
          small = omega (arith, le-product n siz hs);
          set = λ i lo hi. rw (place i hi) (omega arith);
          distinct = λ i j lo lt hi. rw (place i (omega arith), place j hi) (apart i j lt);
        },
        refl,
        refl,
        place,
      )
  where
    place : (i : ℕ) → i < n → fill_items n 0 buf siz (λ _. null) i ≡ buf + i * siz
    place i hi =
        let all : i - 0 ≡ i = omega arith in
        rw all at (fill_items_lem n 0 buf siz (λ _. null) i (omega arith) (omega arith))

    apart : (i j : ℕ) → i < j → buf + i * siz ≢ buf + j * siz
    apart i j lt = omega (arith, mul-lt-mul_of_pos_right lt hs)
