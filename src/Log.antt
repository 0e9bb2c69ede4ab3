-- ===== src/Log.antt =====
-- src/c++/apps/client/client.hh: `check_hist` and `log_latency` of the client. Floating-point
-- arithmetic enters by parameters: a difference of cycles in nanoseconds, a tenth of a number, and
-- whether a number is at least a share of another.
mod Examples
pub mod Buckets
pub mod Groups
pub mod Check
pub mod Passes
pub mod Lines
pub mod Latency
use psp.Base.{
  ℕ, zero, suc, ◌+◌, ◌-◌, ◌*◌, ◌/◌, ◌%◌, Bool, true, false, not, ◌&&◌, List, [], ◌∷◌, ◌++◌, length,
  drop, ltb, ◌==◌, if◌then◌else◌, ℤ, pos, negsuc, sub64, u32_mod, u64_mod, Run, ok, panic, stuck,
  ◌>>=◌,
}
use mathlib.Core.List.{map}
use psp.Base.Maps.{Entries, get, touch}
use psp.ReqType.{ReqType, unknown}
use psp.ClientTypes.{ClientRequest}
use psp.Client.{type_number}
use psp.Histogram.{Histogram, insert_value}
use psp.Sampling.{at, sample_into}

-- the loops over `hist.buckets[i]` from `i` on: the buckets that count something. Reading a bucket
-- that is not there makes one; `i` counts modulo `modulus`.
unfoldable pub bucket_loop : (modulus rounds i : ℕ) → Entries → Run (Entries × Entries)
bucket_loop modulus zero i m = stuck
bucket_loop modulus (suc rounds) i m =
    if ltb i (length m)
    then (do
      (rows, m') ← bucket_loop modulus rounds ((i + 1) % modulus) (touch i m)
      ok (if get i m == 0 then (rows, m') else ((i, get i m) ∷ rows, m')))
    else ok ([], m)

-- the shares that `check_hist` looks for, each a numerator and a denominator
abbrev pub quantiles : List (ℕ × ℕ)
quantiles =
    (25, 100) ∷ (1, 2) ∷ (75, 100) ∷ (90, 100) ∷ (99, 100) ∷ (999, 1000) ∷ (9999, 10000) ∷ []

-- a histogram that was cleared
abbrev pub no_values : Histogram
no_values = record { min = 0; max = 0; total = 0; count = 0; buckets = [] }

-- what a line of the histogram's log has: the lower ends of the buckets, and their counts
pub record HistLine : Type 0 where
  pub name : ReqType
  pub values : Histogram
  pub bounds : List ℕ
  pub counts : List ℕ

-- `requests_by_type`, whose keys are in the order in which they came
abbrev pub ByType : Type 0
ByType = List (ReqType × List ClientRequest)

-- `requests_by_type[req->type].push_back(req)`
unfoldable pub add_to_type : ClientRequest → ByType → ByType
add_to_type req [] = (req.type, req ∷ []) ∷ []
add_to_type req ((t, reqs) ∷ groups) =
    let rest = add_to_type req groups in
    if type_number t == type_number req.type
    then (t, reqs ++ (req ∷ [])) ∷ groups
    else (t, reqs) ∷ rest

-- the loops that fill `requests_by_type`; that of the histograms leaves out the unanswered requests
unfoldable pub by_type : (all : Bool) → List ClientRequest → ByType → ByType
by_type all [] groups = groups
by_type all (req ∷ reqs) groups =
    by_type all reqs (if req.completed == 0 && not all then groups else add_to_type req groups)

module _ (in_ns : ℕ → ℕ) where
  abbrev pub latency : ClientRequest → ℕ
  latency req = in_ns (sub64 req.completed req.sending)

  -- the loops that fill a histogram; that over all requests leaves out the unanswered ones
  unfoldable pub fill_hist : (all : Bool) → List ClientRequest → Histogram → Histogram
  fill_hist all [] hist = hist
  fill_hist all (req ∷ reqs) hist =
      fill_hist all reqs
        (if req.completed == 0 && not all then hist else insert_value hist (latency req))

module _ (in_ns : ℕ → ℕ) (at_least : (total : ℕ) (share : ℕ × ℕ) (c : ℕ) → Bool) where
  -- the shares that are reached in a bucket of `b` values after `c` others, each with the bucket and
  -- the latency of the request at that place
  unfoldable pub reached :
      List (ℕ × ℕ) → (total nr i c b : ℕ) → List ClientRequest → Run (List (ℕ × ℕ))
  reached [] total nr i c b reqs = ok []
  reached ((num, den) ∷ shares) total nr i c b reqs = do
    rest ← reached shares total nr i c b reqs
    if at_least total (num, den) (c + b) && not (at_least total (num, den) c)
        then (do req ← at reqs (nr * num % u64_mod / den); ok ((i, latency in_ns req) ∷ rest))
        else ok rest

  -- the loop of `check_hist`, from bucket `i` on, after `c` values; the result has the new `c`
  unfoldable pub check_loop :
      (rounds i c total nr : ℕ) → List ClientRequest → Entries → Run (List (ℕ × ℕ) × ℕ × Entries)
  check_loop zero i c total nr reqs m = stuck
  check_loop (suc rounds) i c total nr reqs m =
      if ltb i (length m)
      then (do
        found ← (if get i m == 0 then ok [] else reached quantiles total nr i c (get i m) reqs)
        (rest, c', m') ←
            check_loop rounds ((i + 1) % u32_mod) ((c + get i m) % u32_mod) total nr reqs
              (touch i m)
        ok (found ++ rest, c', m'))
      else ok ([], c, m)

  -- `check_hist`: the shares that it prints
  unfoldable pub check_hist :
      (rounds : ℕ) → List ClientRequest → ℕ → Histogram → Run (List (ℕ × ℕ) × Histogram)
  check_hist rounds reqs nr hist = do
    first ← at reqs 0
    (found, c, m) ← check_loop rounds 0 0 hist.count nr reqs hist.buckets
    if c == hist.count
        then (do last ← at reqs nr; ok (found, record hist { buckets = m }))
        else panic

-- the two lines of a histogram
unfoldable pub print_hist : (rounds : ℕ) → ReqType → Histogram → Run (HistLine × Histogram)
print_hist rounds name hist = do
  (heads, m) ← bucket_loop u64_mod rounds 0 hist.buckets
  (rows, m') ← bucket_loop u32_mod rounds 0 m
  ok (
    record {
      name = name;
      values = hist;
      bounds = map (λ row. row.0 * 1000) heads;
      counts = map (λ row. row.1) rows;
    },
    record hist { buckets = m' },
  )

module _ (in_ns : ℕ → ℕ) (at_least : (total : ℕ) (share : ℕ × ℕ) (c : ℕ) → Bool) where
  -- the lines of a type; its histogram is cleared before
  unfoldable pub log_type : (rounds : ℕ) → ReqType × List ClientRequest → Run (List HistLine)
  log_type rounds (t, reqs) =
      let hist = fill_hist in_ns true reqs no_values in
      if hist.count == 0 then ok [] else (do
        (line, hist') ← print_hist rounds t hist
        if hist.count == length reqs
            then (do
              checked ← check_hist in_ns at_least rounds reqs (length reqs - 1) hist'
              ok (line ∷ []))
            else panic)

  unfoldable pub log_types : (rounds : ℕ) → ByType → Run (List HistLine)
  log_types rounds [] = ok []
  log_types rounds (group ∷ groups) = do
    lines ← log_type rounds group
    rest ← log_types rounds groups
    ok (lines ++ rest)

  -- `log_latency` with `downsample` -1, after the first tenth was left out and the rest was sorted:
  -- the status and the lines. `visit` is the order in which the types come.
  unfoldable pub log_histograms :
      (rounds : ℕ) → (visit : ByType → ByType) → List ClientRequest → Run (ℤ × List HistLine)
  log_histograms rounds visit pruned =
      let hist = fill_hist in_ns false pruned no_values in
      if hist.count == 0 then ok (negsuc 0, []) else (do
        (line, hist') ← print_hist rounds unknown hist
        checked ← check_hist in_ns at_least rounds pruned (hist.count - 1) hist'
        lines ← log_types rounds (visit (by_type false pruned []))
        ok (pos 0, line ∷ lines))

  -- the loop over the types that takes samples of each
  unfoldable pub sample_types :
      (sort_lat sort_time : List ClientRequest → List ClientRequest)
      → ℕ
      → ByType
      → List ClientRequest
      → Run (List ClientRequest)
  sample_types sort_lat sort_time n [] to = ok to
  sample_types sort_lat sort_time n ((t, reqs) ∷ groups) to = do
    to' ← sample_into sort_lat sort_time n reqs to
    sample_types sort_lat sort_time n groups to'

  -- `log_latency`: the status, the requests in the log, and the lines of the log of histograms
  unfoldable pub log_latency :
      (rounds : ℕ)
      → (tenth : ℕ → ℕ) → (visit : ByType → ByType)
      → (sort_lat sort_time : List ClientRequest → List ClientRequest) → ℤ
      → List ClientRequest
      → Run (ℤ × List ClientRequest × List HistLine)
  log_latency rounds tenth visit sort_lat sort_time downsample [] = ok (pos 2, [], [])
  log_latency rounds tenth visit sort_lat sort_time (pos zero) (r ∷ rs) = ok (pos 0, r ∷ rs, [])
  log_latency rounds tenth visit sort_lat sort_time (pos (suc n)) (r ∷ rs) = do
    rows ← sample_types sort_lat sort_time (suc n) (visit (by_type true (r ∷ rs) [])) []
    ok (pos 0, rows, [])
  log_latency rounds tenth visit sort_lat sort_time (negsuc zero) (r ∷ rs) = do
    (status, lines) ←
        log_histograms rounds visit (sort_lat (drop (tenth (length (r ∷ rs))) (r ∷ rs)))
    ok (status, [], lines)
  log_latency rounds tenth visit sort_lat sort_time (negsuc (suc n)) (r ∷ rs) = ok (pos 0, [], [])
