-- ===== src/Log/Lines.antt =====
-- A line of the log of histograms.
use psp.Base.{ℕ, ◌*◌, ◌<◌, ◌≡◌, refl, sym, ap, ◌∙◌, [], ◌∷◌, length, arith, u32_mod, u64_mod, ok}
use mathlib.Core.List.{map}
use psp.Base.Maps.{Entries}
use psp.ReqType.{ReqType}
use psp.Histogram.{Histogram}
use psp.Histogram.Summary.{sum}
use psp.Log.{HistLine, print_hist}
use psp.Log.Buckets.{Listed, positive, positive-same, bucket_loop-Listed}
use psp.Log.Check.{row_sum, row_sum-all, Filled}

-- a line whose counts add up to `k`, with as many bounds as counts
abbrev pub Balanced : ℕ → HistLine → Type 0
Balanced k line = (sum line.counts ≡ k) × (length line.bounds ≡ length line.counts)

sum-counts : (rows : Entries) → sum (map (λ row. row.1) rows) ≡ row_sum rows
sum-counts [] = refl
sum-counts ((i, b) ∷ rows) = omega (arith, sum-counts rows)

length-map_rows : (f g : ℕ × ℕ → ℕ) (rows : Entries) → length (map f rows) ≡ length (map g rows)
length-map_rows f g [] = refl
length-map_rows f g (row ∷ rows) = omega (arith, length-map_rows f g rows)

-- the loops over the buckets leave a histogram of the same values
Listed-Filled :
    (n k : ℕ) (hist : Histogram) (m : Entries)
    → Filled n k hist
    → Listed n hist.buckets m
    → Filled n k (record hist { buckets = m })
Listed-Filled n k hist m f l = record {
  distinct = l.distinct;
  within = l.within;
  sum = omega (
    arith,
    f.sum,
    row_sum-all n m l.distinct l.within,
    row_sum-all n hist.buckets f.distinct f.within,
    ap row_sum (positive-same 0 n hist.buckets m l.same),
  );
  count = f.count;
}

pub print_hist-Balanced :
    (rounds n k : ℕ) (name : ReqType) (hist : Histogram)
    → n < u32_mod
    → n < rounds
    → Filled n k hist
    → (line : HistLine) × (hist' : Histogram) × (print_hist rounds name hist ≡ ok (line, hist'))
      × Filled n k hist'
      × (hist'.count ≡ hist.count)
      × Balanced k line
      × (line.values.count ≡ k)
unfolding print_hist
print_hist-Balanced rounds n k name hist small fuel f =
    let (m, runs, listed) =
      bucket_loop-Listed u64_mod rounds n hist.buckets f.distinct f.within (omega arith) fuel in
    let (m', runs', listed') =
      bucket_loop-Listed u32_mod rounds n m listed.distinct listed.within small fuel in
    let f1 = Listed-Filled n k hist m f listed in
    let rows = positive 0 n m in
    (
      record {
        name = name;
        values = hist;
        bounds = map (λ row. row.0 * 1000) (positive 0 n hist.buckets);
        counts = map (λ row. row.1) rows;
      },
      record hist { buckets = m' },
      rw (runs, runs') refl,
      Listed-Filled n k (record hist { buckets = m }) m' f1 listed',
      refl,
      (
        omega (arith, sum-counts rows, row_sum-all n m listed.distinct listed.within, f1.sum),
        ap (λ r. length (map (λ row. row.0 * 1000) r))
              (sym (positive-same 0 n hist.buckets m listed.same))
            ∙ length-map_rows (λ row. row.0 * 1000) (λ row. row.1) rows,
      ),
      f.count,
    )
