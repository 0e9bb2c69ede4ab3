-- ===== src/Histogram.antt =====
-- include/psp/hist.hh: the histogram of latencies.
mod Examples
pub mod Summary
use psp.Base.{ℕ, ◌/◌, ◌%◌, ◌^◌, Bool, ◌||◌, ltb, ◌==◌, if◌then◌else◌, add64}
use psp.Base.Maps.{Entries, get, set}

-- `Histogram_t`
pub record Histogram : Type 0 where
  pub min : ℕ
  pub max : ℕ
  pub total : ℕ
  pub count : ℕ
  pub buckets : Entries

-- the key of a value's bucket, of `BUCKET_SIZE` 1000: the quotient becomes an `int` and then a
-- `uint32_t`
abbrev pub bucket : ℕ → ℕ
bucket val = val / 1000 % 2 ^ 32

-- `insert_value`
unfoldable pub insert_value : Histogram → ℕ → Histogram
insert_value hist val = record hist {
  max = if ltb hist.max val then val else hist.max;
  min = if ltb val hist.min || hist.min == 0 then val else hist.min;
  total = add64 hist.total val;
  buckets = set (bucket val) (add64 (get (bucket val) hist.buckets) 1) hist.buckets;
  count = add64 hist.count 1;
}
