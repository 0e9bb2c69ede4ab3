-- ===== src/Histogram/Examples.antt =====
-- A histogram of one value.
use psp.Base.{refl, [], ◌∷◌, arith}
use psp.Histogram.{Histogram}
use psp.Histogram.Summary.{IsSummary}

abbrev one_value : Histogram
one_value = record { min = 2500; max = 2500; total = 2500; count = 1; buckets = (2, 1) ∷ [] }

one_value-IsSummary : IsSummary (2500 ∷ []) one_value
one_value-IsSummary = record {
  max = refl;
  min = refl;
  total = refl;
  count = refl;
  buckets = λ k. ground arith;
  distinct = λ k. ground arith;
}
