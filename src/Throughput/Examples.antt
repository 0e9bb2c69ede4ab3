-- ===== src/Throughput/Examples.antt =====
-- Three requests in two epochs, and one that was not answered.
use psp.Base.{ℕ, ◌/◌, ◌≡◌, refl, List, [], ◌∷◌, arith}
use psp.ReqType.{ReqType}
use psp.ClientTypes.{ClientRequest}
use psp.Throughput.{count_epochs, log_throughput}
use psp.Throughput.Epochs.{count_of, total, answered_in, count_epochs_lem}

abbrev request : ReqType → ℕ → ClientRequest
request type completed = record {
  id = 0;
  mbuf = 0;
  run_ns = 0;
  type = type;
  sending = 1000;
  completed = completed;
  schedule_id = 0;
}

abbrev requests : List ClientRequest
requests =
    request ReqType.short 5500
    ∷ request ReqType.long 5600
    ∷ request ReqType.short 5700
    ∷ request ReqType.short 0
    ∷ []

lines :
    log_throughput (λ t. t / 1000) 3 1000 requests
    ≡ (3, 5000, "LONG", 1) ∷ (3, 5000, "SHORT", 2) ∷ []
unfolding log_throughput psp.Throughput.rows_of psp.Throughput.has_epoch psp.Throughput.increment
    psp.Throughput.count_epochs psp.ReqType.req_type_str
lines = refl

count_epochs_example :
    ((t k : ℕ)
      → count_of t k (count_epochs (λ t. t / 1000) requests [])
        ≡ answered_in (λ t. t / 1000) t k requests)
    × (total (count_epochs (λ t. t / 1000) requests []) ≡ 3)
count_epochs_example = count_epochs_lem (λ t. t / 1000) requests (omega arith)
