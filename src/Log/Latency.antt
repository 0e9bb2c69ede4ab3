-- ===== src/Log/Latency.antt =====
-- The log of the histograms of latencies.
use psp.Base.{
  ℕ, ◌-◌, ◌^◌, ◌≤◌, ◌<◌, ◌≡◌, refl, ◌∙◌, Bool, true, false, inl, inr, List, [], ◌∷◌, ◌++◌, length,
  drop, length-drop, All, All-drop, All-append, arith, ◌==◌, ==→eq, ==_refl, Bool-cases, ℤ, pos,
  negsuc, u32_mod, Run, ok,
}
use psp.ReqType.{ReqType, unknown}
use psp.ClientTypes.{ClientRequest}
use psp.Histogram.{bucket}
use psp.Log.{
  HistLine, ByType, by_type, latency, no_values, fill_hist, log_type, log_types, log_histograms,
  log_latency,
}
use psp.Log.Groups.{Grouped, groups-Grouped}
use psp.Log.Check.{counted, counted-le, counted-true, Small, fill_hist-Filled}
use psp.Log.Passes.{check_hist-ok}
use psp.Log.Lines.{Balanced, print_hist-Balanced}

-- a line whose counts add up to the number of values of its histogram
abbrev pub IsComplete : HistLine → Type 0
IsComplete line = Balanced line.values.count line

-- what the log holds of so many answered requests: nothing if there are none, and else a line of
-- all of them before one for each type
abbrev pub Outcome : ℕ → ℤ → List HistLine → Type 0
Outcome answered status [] = (answered ≡ 0) × (status ≡ negsuc 0)
Outcome answered status (line ∷ lines) =
    (1 ≤ answered) × (status ≡ pos 0) × Balanced answered line × All IsComplete lines

module _ (in_ns : ℕ → ℕ) (at_least : (total : ℕ) (share : ℕ × ℕ) (c : ℕ) → Bool) (rounds n : ℕ)
    (small : n < u32_mod) (fuel : n < rounds) where
  -- the lines that a run over some groups returns
  abbrev Complete : Run (List HistLine) → Type 0
  Complete run = (lines : List HistLine) × (run ≡ ok lines) × All IsComplete lines

  -- the latency of the request falls into a bucket below `n`
  abbrev Bounded : ClientRequest → Type 0
  Bounded req = bucket (latency in_ns req) < n

  bounded : (reqs : List ClientRequest) → All Bounded reqs → All (Small in_ns true n) reqs
  bounded [] h = tt
  bounded (req ∷ reqs) h = (λ counts. h.0, bounded reqs h.1)

  log_type-Complete :
      (t : ReqType) (reqs : List ClientRequest)
      → length reqs < 2 ^ 32
      → All Bounded reqs
      → Complete (log_type in_ns at_least rounds (t, reqs))
  unfolding log_type
  log_type-Complete t reqs few h =
      let f = fill_hist-Filled in_ns true n reqs few (bounded reqs h) in
      let hist = fill_hist in_ns true reqs no_values in
      let is : hist.count ≡ length reqs = f.count ∙ counted-true reqs in
      elim (Bool-cases (hist.count == 0)) [
        | inl none_there ↦ ([], rw none_there refl, tt)
        | inr some_there ↦
            let (line, hist', prints, f', same, balanced, values) =
              print_hist-Balanced rounds n (counted true reqs) t hist small fuel f in
            let (found, hist2, checks) =
              check_hist-ok in_ns at_least rounds n (counted true reqs) (length reqs - 1) reqs hist'
                (ground (arith, is, some_there)) small fuel (omega (arith, counted-le true reqs))
                f' in
            (
              line ∷ [],
              rw (some_there, prints, is, ==_refl (length reqs), checks) refl,
              ((omega (arith, balanced.0, values), balanced.1), tt),
            )
      ]

  log_types-Complete :
      (L : ℕ) (groups : ByType)
      → L < 2 ^ 32
      → All (Grouped Bounded L) groups
      → Complete (log_types in_ns at_least rounds groups)
  unfolding log_types
  log_types-Complete L [] few h = ([], refl, tt)
  log_types-Complete L ((t, reqs) ∷ groups) few h =
      let (lines, runs, complete) = log_type-Complete t reqs (omega (arith, h.0.0)) h.0.1 in
      let (rest, runs', complete') = log_types-Complete L groups few h.1 in
      (lines ++ rest, rw (runs, runs') refl, All-append IsComplete lines rest complete complete')

  log_histograms-Outcome :
      (visit : ByType → ByType) (reqs : List ClientRequest)
      → ((P : ReqType × List ClientRequest → Type 0) (groups : ByType)
          → All P groups
          → All P (visit groups))
      → length reqs < 2 ^ 32
      → All (Small in_ns false n) reqs
      → (status : ℤ) × (lines : List HistLine) × (log_histograms in_ns at_least rounds visit reqs
          ≡ ok (status, lines))
        × Outcome (counted false reqs) status lines
  unfolding log_histograms
  log_histograms-Outcome visit reqs keeps few h =
      let f = fill_hist-Filled in_ns false n reqs few h in
      let hist = fill_hist in_ns false reqs no_values in
      elim (Bool-cases (hist.count == 0)) [
        | inl none_there ↦ (
          negsuc 0,
          [],
          rw none_there refl,
          (omega (arith, ==→eq hist.count 0 none_there, f.count), refl),
        )
        | inr some_there ↦
            let (line, hist', prints, f', same, balanced, values) =
              print_hist-Balanced rounds n (counted false reqs) unknown hist small fuel f in
            let some_answered : 1 ≤ hist.count = ground (arith, some_there) in
            let (found, hist2, checks) =
              check_hist-ok in_ns at_least rounds n (counted false reqs) (hist.count - 1) reqs hist'
                (omega (arith, some_answered, f.count, counted-le false reqs)) small fuel
                (omega (arith, counted-le false reqs)) f' in
            let (lines, runs, complete) =
              log_types-Complete (length reqs) (visit (by_type false reqs [])) few (
                keeps (Grouped Bounded (length reqs)) (by_type false reqs [])
                  (groups-Grouped Bounded false reqs h)) in
            (
              pos 0,
              line ∷ lines,
              rw (some_there, prints, checks, runs) refl,
              (omega (arith, some_answered, f.count), refl, balanced, complete),
            )
      ]

  -- `log_latency` with `downsample` -1, of at least one request and fewer than 2^32, of which the latencies of those answered
  -- fall into buckets below `n`, where `n` is less than 2^32, ends in `n + 1` rounds of each loop, although they
  -- extend the map that they read: no check of a histogram fails and nothing outside a vector is read.
  -- It returns -1 and logs nothing when none of the requests that are left was answered, and else 0
  -- with a line whose counts add up to the number of those that were, before the lines of the types,
  -- of which the counts of each add up to its number of values. Every line has as many bounds as
  -- counts. The sort keeps the number of requests and what holds of each of them, and the order in
  -- which the types come keeps what holds of each.
  pub log_latency-Outcome :
      (tenth : ℕ → ℕ) (visit : ByType → ByType)
      (sort_lat sort_time : List ClientRequest → List ClientRequest) (r : ClientRequest)
      (rs : List ClientRequest)
      → ((P : ReqType × List ClientRequest → Type 0) (groups : ByType)
          → All P groups
          → All P (visit groups))
      → ((xs : List ClientRequest) → length (sort_lat xs) ≡ length xs)
      → ((P : ClientRequest → Type 0) (xs : List ClientRequest) → All P xs → All P (sort_lat xs))
      → length (r ∷ rs) < 2 ^ 32
      → All (Small in_ns false n) (r ∷ rs)
      → (status : ℤ) × (lines : List HistLine) × (log_latency in_ns at_least rounds tenth visit
            sort_lat sort_time
            (negsuc 0)
            (r ∷ rs)
          ≡ ok (status, [], lines))
        × Outcome (counted false (sort_lat (drop (tenth (length (r ∷ rs))) (r ∷ rs)))) status lines
  unfolding log_latency
  log_latency-Outcome tenth visit sort_lat sort_time r rs keeps same_length keeps_sorted few h =
      let left = drop (tenth (length (r ∷ rs))) (r ∷ rs) in
      let (status, lines, runs, outcome) =
        log_histograms-Outcome visit (sort_lat left) keeps
          (omega (arith, same_length left, length-drop (tenth (length (r ∷ rs))) (r ∷ rs), few))
          (keeps_sorted (Small in_ns false n) left
            (All-drop (Small in_ns false n) (tenth (length (r ∷ rs))) (r ∷ rs) h)) in
      (status, lines, rw runs refl, outcome)
