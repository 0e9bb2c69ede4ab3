-- ===== src/Base/Maps.antt =====
-- A `std::map` from numbers to numbers whose order does not matter: a list of its entries.
use Prim.Native.Nat.{ℕ, ◌+◌, ◌≤◌, ◌<◌}
use mathlib.Core.Path.{◌≡◌, refl}
use mathlib.Core.Bool.{Bool, false, ◌||◌}
use mathlib.Core.List.{List, [], ◌∷◌}
use native.Mathlib.Omega.{arith}
use psp.Base.Tests.{◌==◌, ltb, if◌then◌else◌}
use psp.Base.Lists.{length}

abbrev pub Entries : Type 0
Entries = List (ℕ × ℕ)

abbrev pub has : ℕ → Entries → Bool
has k [] = false
has k ((j, v) ∷ m) = j == k || has k m

-- `m[k]` of a key that is not there is 0
abbrev pub get : ℕ → Entries → ℕ
get k [] = 0
get k ((j, v) ∷ m) = if j == k then v else get k m

abbrev pub set : ℕ → ℕ → Entries → Entries
set k v [] = (k, v) ∷ []
set k v ((j, w) ∷ m) = if j == k then (j, v) ∷ m else (j, w) ∷ set k v m

-- reading `m[k]` makes an entry
abbrev pub touch : ℕ → Entries → Entries
touch k m = if has k m then m else (k, 0) ∷ m

-- how many entries have the key, and how many a smaller one
abbrev pub count : ℕ → Entries → ℕ
count k [] = 0
count k ((j, v) ∷ m) = (if j == k then 1 else 0) + count k m

abbrev pub below : ℕ → Entries → ℕ
below k [] = 0
below k ((j, v) ∷ m) = (if ltb j k then 1 else 0) + below k m

-- every key has one entry
abbrev pub IsMap : Entries → Type 0
IsMap m = (k : ℕ) → count k m ≤ 1

pub get-set : (k j v : ℕ) (m : Entries) → get j (set k v m) ≡ (if k == j then v else get j m)
get-set k j v [] = refl
get-set k j v ((i, w) ∷ m) = ground (arith, get-set k j v m)

pub count-set :
    (k j v : ℕ) (m : Entries)
    → count j (set k v m) ≡ (if has k m then count j m else count j ((k, v) ∷ m))
count-set k j v [] = refl
count-set k j v ((i, w) ∷ m) = ground (arith, count-set k j v m)

pub has-count : (k : ℕ) (m : Entries) → has k m ≡ ltb 0 (count k m)
has-count k [] = refl
has-count k ((j, v) ∷ m) = ground (arith, has-count k m)

pub get-absent : (k : ℕ) (m : Entries) → count k m ≡ 0 → get k m ≡ 0
get-absent k [] h = refl
get-absent k ((j, v) ∷ m) h = ground (arith, get-absent k m)

pub below_zero : (m : Entries) → below 0 m ≡ 0
below_zero [] = refl
below_zero ((j, v) ∷ m) = ground (arith, below_zero m)

pub below_suc : (k : ℕ) (m : Entries) → below (k + 1) m ≡ below k m + count k m
below_suc k [] = refl
below_suc k ((j, v) ∷ m) = ground (arith, below_suc k m)

pub below-le : (k : ℕ) (m : Entries) → below k m ≤ length m
below-le k [] = omega arith
below-le k ((j, v) ∷ m) = ground (arith, below-le k m)

-- where all keys are smaller, a key that is not has no entry
pub count-above : (k j : ℕ) (m : Entries) → length m ≤ below k m → k ≤ j → count j m ≡ 0
count-above k j [] all le = refl
count-above k j ((i, v) ∷ m) all le = ground (arith, count-above k j m, below-le k m)

pub set-IsMap : (k v : ℕ) (m : Entries) → IsMap m → IsMap (set k v m)
set-IsMap k v m h j = ground (arith, count-set k j v m, has-count k m, h j)

-- the sum of the values, and of those with a smaller key
abbrev pub sum_all : Entries → ℕ
sum_all [] = 0
sum_all ((j, v) ∷ m) = v + sum_all m

abbrev pub sum_below : ℕ → Entries → ℕ
sum_below k [] = 0
sum_below k ((j, v) ∷ m) = (if ltb j k then v else 0) + sum_below k m

pub sum_all-set : (k v : ℕ) (m : Entries) → sum_all (set k v m) + get k m ≡ sum_all m + v
sum_all-set k v [] = omega arith
sum_all-set k v ((j, w) ∷ m) = ground (arith, sum_all-set k v m)

pub get-le-sum_all : (k : ℕ) (m : Entries) → get k m ≤ sum_all m
get-le-sum_all k [] = omega arith
get-le-sum_all k ((j, w) ∷ m) = ground (arith, get-le-sum_all k m)

pub sum_below_zero : (m : Entries) → sum_below 0 m ≡ 0
sum_below_zero [] = refl
sum_below_zero ((j, v) ∷ m) = ground (arith, sum_below_zero m)

sum_below-absent : (k : ℕ) (m : Entries) → count k m ≡ 0 → sum_below (k + 1) m ≡ sum_below k m
sum_below-absent k [] h = refl
sum_below-absent k ((j, v) ∷ m) h = ground (arith, sum_below-absent k m)

pub sum_below_suc :
    (k : ℕ) (m : Entries) → count k m ≤ 1 → sum_below (k + 1) m ≡ sum_below k m + get k m
sum_below_suc k [] h = refl
sum_below_suc k ((j, v) ∷ m) h =
    ground (arith, sum_below_suc k m, sum_below-absent k m, get-absent k m)

pub sum_below_all : (k : ℕ) (m : Entries) → length m ≤ below k m → sum_below k m ≡ sum_all m
sum_below_all k [] h = refl
sum_below_all k ((j, v) ∷ m) h = ground (arith, sum_below_all k m, below-le k m)

pub length-set-below :
    (k n v : ℕ) (m : Entries)
    → k < n
    → length m ≤ below n m
    → length (set k v m) ≤ below n (set k v m)
length-set-below k n v [] lt h = ground arith
length-set-below k n v ((j, w) ∷ m) lt h = ground (arith, length-set-below k n v m lt, below-le n m)
