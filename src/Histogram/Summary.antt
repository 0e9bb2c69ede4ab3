-- ===== src/Histogram/Summary.antt =====
-- What a histogram keeps of the values that were inserted.
use psp.Base.{
  ℕ, ◌+◌, ◌%◌, ◌^◌, ◌≤◌, ◌≡◌, List, [], ◌∷◌, All, length, arith, ◌==◌, if◌then◌else◌, min, max,
  add64, ◌∙◌,
}
use psp.Base.Maps.{get, get-set, IsMap, set-IsMap}
use psp.Histogram.{Histogram, bucket, insert_value}

abbrev pub sum : List ℕ → ℕ
sum [] = 0
sum (v ∷ vs) = v + sum vs

abbrev pub largest : List ℕ → ℕ
largest [] = 0
largest (v ∷ vs) = max v (largest vs)

-- 0 for no value
abbrev pub smallest : List ℕ → ℕ
smallest [] = 0
smallest (v ∷ []) = v
smallest (v ∷ w ∷ vs) = min v (smallest (w ∷ vs))

-- how many of the values fall into the bucket
abbrev pub tally : ℕ → List ℕ → ℕ
tally k [] = 0
tally k (v ∷ vs) = if bucket v == k then 1 + tally k vs else tally k vs

-- the values inserted, the last one first
pub record IsSummary (vs : List ℕ) (hist : Histogram) : Type 0 where
  pub max : hist.max ≡ largest vs
  pub min : hist.min ≡ smallest vs
  pub total : hist.total ≡ sum vs % 2 ^ 64
  pub count : hist.count ≡ length vs % 2 ^ 64
  pub buckets : (k : ℕ) → get k hist.buckets ≡ tally k vs % 2 ^ 64
  pub distinct : IsMap hist.buckets

smallest-pos : (v : ℕ) (vs : List ℕ) → All (λ x. 1 ≤ x) (v ∷ vs) → 1 ≤ smallest (v ∷ vs)
smallest-pos v [] h = h.0
smallest-pos v (w ∷ vs) h = omega (arith, h.0, smallest-pos w vs h.1)

one_more :
    (vs : List ℕ) (hist : Histogram) (val k : ℕ)
    → IsSummary vs hist
    → get k (insert_value hist val).buckets ≡ tally k (val ∷ vs) % 2 ^ 64
unfolding insert_value
one_more vs hist val k r =
    get-set (bucket val) k (add64 (get (bucket val) hist.buckets) 1) hist.buckets
    ∙ ground (arith, r.buckets k, r.buckets (bucket val))

-- A histogram of values that are not 0 that receives another one keeps their largest and smallest
-- value, their sum and number modulo 2 ^ 64, and for each bucket the number of values in it, in one entry.
pub insert_value-IsSummary :
    (vs : List ℕ) (hist : Histogram) (val : ℕ)
    → All (λ x. 1 ≤ x) vs
    → IsSummary vs hist
    → IsSummary (val ∷ vs) (insert_value hist val)
unfolding insert_value
insert_value-IsSummary [] hist val pos r = record {
  max = ground (arith, r.max);
  min = ground (arith, r.min);
  total = omega (arith, r.total);
  count = omega (arith, r.count);
  buckets = λ k. one_more [] hist val k r;
  distinct = set-IsMap (bucket val) _ hist.buckets r.distinct;
}
insert_value-IsSummary (v ∷ vs) hist val pos r = record {
  max = ground (arith, r.max);
  min = ground (arith, r.min, smallest-pos v vs pos);
  total = omega (arith, r.total);
  count = omega (arith, r.count);
  buckets = λ k. one_more (v ∷ vs) hist val k r;
  distinct = set-IsMap (bucket val) _ hist.buckets r.distinct;
}
