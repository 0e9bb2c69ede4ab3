-- ===== src/Log/Check.antt =====
-- The check of a histogram against the requests that it was made of.
use psp.Base.{
  ℕ, zero, suc, ◌+◌, ◌^◌, ◌≤◌, ◌<◌, ◌≡◌, refl, ap, Bool, true, false, not, ◌&&◌, inl, inr, List, [],
  ◌∷◌, length, All, arith, ◌==◌, Bool-cases, if◌then◌else◌, add64,
}
use native.Mathlib.Nat.{add-zero, zero-add}
use psp.Base.Maps.{
  Entries, get, IsMap, set-IsMap, sum_all, sum_below, sum_all-set, get-le-sum_all, sum_below_zero,
  sum_below_suc, sum_below_all, length-set-below,
}
use psp.ClientTypes.{ClientRequest}
use psp.Histogram.{Histogram, bucket, insert_value}
use psp.Log.{latency, fill_hist, no_values}
use psp.Log.Buckets.{Within, positive, add_suc}

-- the sum of the counts of the rows
abbrev pub row_sum : Entries → ℕ
row_sum [] = 0
row_sum ((i, b) ∷ rows) = b + row_sum rows

pub row_sum-suc :
    (i k : ℕ) (m : Entries)
    → row_sum (positive i (suc k) m) ≡ get i m + row_sum (positive (i + 1) k m)
row_sum-suc i k m = ground arith

-- what the buckets from `i` on count
row_sum-below :
    (i k : ℕ) (m : Entries)
    → IsMap m
    → row_sum (positive i k m) + sum_below i m ≡ sum_below (i + k) m
row_sum-below i zero m h = omega (arith, ap (λ j. sum_below j m) (add-zero i))
row_sum-below i (suc k) m h = ground (
  arith,
  row_sum-below (i + 1) k m h,
  sum_below_suc i m (h i),
  ap (λ j. sum_below j m) (add_suc i k),
)

pub row_sum-all :
    (n : ℕ) (m : Entries) → IsMap m → Within n m → row_sum (positive 0 n m) ≡ sum_all m
row_sum-all n m h within = omega (
  arith,
  row_sum-below 0 n m h,
  sum_below_zero m,
  sum_below_all n m within,
  ap (λ j. sum_below j m) (zero-add n),
)

-- a histogram of `k` values whose buckets are below `n`
pub record Filled (n k : ℕ) (hist : Histogram) : Type 0 where
  pub distinct : IsMap hist.buckets
  pub within : Within n hist.buckets
  pub sum : sum_all hist.buckets ≡ k
  pub count : hist.count ≡ k

insert_value-Filled :
    (n k val : ℕ) (hist : Histogram)
    → bucket val < n
    → k + 1 < 2 ^ 64
    → Filled n k hist
    → Filled n (k + 1) (insert_value hist val)
unfolding insert_value
insert_value-Filled n k val hist lt small f = record {
  distinct = set-IsMap (bucket val) _ hist.buckets f.distinct;
  within = length-set-below (bucket val) n _ hist.buckets lt f.within;
  sum = omega (
    arith,
    sum_all-set (bucket val) (add64 (get (bucket val) hist.buckets) 1) hist.buckets,
    f.sum,
    get-le-sum_all (bucket val) hist.buckets,
  );
  count = omega (arith, f.count);
}

pub no_values-Filled : (n : ℕ) → Filled n 0 no_values
no_values-Filled n = record {
  distinct = λ k. omega arith;
  within = omega arith;
  sum = refl;
  count = refl;
}

-- how many of the requests a histogram counts
abbrev pub counted : Bool → List ClientRequest → ℕ
counted all [] = 0
counted all (req ∷ reqs) = (if req.completed == 0 && not all then 0 else 1) + counted all reqs

pub counted-le : (all : Bool) (reqs : List ClientRequest) → counted all reqs ≤ length reqs
counted-le all [] = omega arith
counted-le all (req ∷ reqs) = ground (arith, counted-le all reqs)

pub counted-true : (reqs : List ClientRequest) → counted true reqs ≡ length reqs
counted-true [] = refl
counted-true (req ∷ reqs) = ground (arith, counted-true reqs)

module _ (in_ns : ℕ → ℕ) where
  -- the latency of the request falls into a bucket below `n`, if a histogram counts the request
  abbrev pub Small : Bool → ℕ → ClientRequest → Type 0
  Small all n req = (req.completed == 0 && not all) ≡ false → bucket (latency in_ns req) < n

  fill_hist-Filled_from :
      (all : Bool) (n k : ℕ) (reqs : List ClientRequest) (hist : Histogram)
      → k + length reqs < 2 ^ 32
      → All (Small all n) reqs
      → Filled n k hist
      → Filled n (k + counted all reqs) (fill_hist in_ns all reqs hist)
  unfolding fill_hist
  fill_hist-Filled_from all n k [] hist small h f = rw add-zero f
  fill_hist-Filled_from all n k (req ∷ reqs) hist small h f =
      elim (Bool-cases (req.completed == 0 && not all)) [
        | inl left_out ↦
            rw (left_out, zero-add) (fill_hist-Filled_from all n k reqs hist (omega arith) h.1 f)
        | inr taken ↦
            rw (taken, add_one k (counted all reqs))
              (fill_hist-Filled_from all n (k + 1) reqs _ (omega arith) h.1
                (insert_value-Filled n k _ hist (h.0 taken) (omega arith) f))
      ]
    where
      add_one : (a b : ℕ) → a + (1 + b) ≡ a + 1 + b
      add_one a b = omega arith

  pub fill_hist-Filled :
      (all : Bool) (n : ℕ) (reqs : List ClientRequest)
      → length reqs < 2 ^ 32
      → All (Small all n) reqs
      → Filled n (counted all reqs) (fill_hist in_ns all reqs no_values)
  fill_hist-Filled all n reqs small h =
      rw (← zero-add (counted all reqs))
        (fill_hist-Filled_from all n 0 reqs no_values (omega arith) h (no_values-Filled n))
