-- ===== src/Log/Examples.antt =====
-- Three requests, of which two were answered.
use psp.Base.{ℕ, ◌*◌, ◌/◌, ◌≡◌, refl, false, arith, List, [], ◌∷◌, All, leb, ℤ, negsuc, ok}
use psp.Base.Maps.{Entries, IsMap}
use psp.ReqType.{ReqType}
use psp.ClientTypes.{ClientRequest}
use psp.Log.{HistLine, bucket_loop, log_latency}
use psp.Log.Buckets.{Listed, bucket_loop-Listed}
use psp.Log.Check.{counted, Small}
use psp.Log.Latency.{Outcome, log_latency-Outcome}

abbrev two_buckets : Entries
two_buckets = (4, 2) ∷ (1, 1) ∷ []

two_buckets-IsMap : IsMap two_buckets
two_buckets-IsMap k = ground arith

bucket_loop-Listed_example :
    (m' : Entries) × (bucket_loop 100 9 0 two_buckets ≡ ok ((1, 1) ∷ (4, 2) ∷ [], m'))
    × Listed 5 two_buckets m'
bucket_loop-Listed_example =
    bucket_loop-Listed 100 9 5 two_buckets two_buckets-IsMap (omega arith) (omega arith)
      (omega arith)

-- a request that was sent at 1000 and answered at the given time
abbrev request : ℕ → ReqType → ℕ → ClientRequest
request id type completed = record {
  id = id;
  mbuf = 0;
  run_ns = 0;
  type = type;
  sending = 1000;
  completed = completed;
  schedule_id = 0;
}

abbrev one : ClientRequest
one = request 0 ReqType.short 5500

abbrev others : List ClientRequest
others = request 1 ReqType.long 0 ∷ request 2 ReqType.long 2100 ∷ []

few_latencies : All (Small (λ c. c) false 5) (one ∷ others)
few_latencies = ((λ c. omega arith), ((λ c. cc), ((λ c. omega arith), tt)))

log_latency-Outcome_example :
    (status : ℤ) × (lines : List HistLine) × (log_latency
        (λ c. c)
        (λ total share c. leb (total * share.0) (c * share.1))
        9
        (λ k. k / 10)
        (λ g. g)
        (λ xs. xs)
        (λ xs. xs)
        (negsuc 0)
        (one ∷ others)
      ≡ ok (status, [], lines))
    × Outcome (counted false (one ∷ others)) status lines
log_latency-Outcome_example =
    log_latency-Outcome (λ c. c) (λ total share c. leb (total * share.0) (c * share.1)) 9 5
      (omega arith) (omega arith) (λ k. k / 10) (λ g. g) (λ xs. xs) (λ xs. xs) one others
      (λ P groups h. h) (λ xs. refl) (λ P xs h. h) (omega arith) few_latencies
