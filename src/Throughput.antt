-- ===== src/Throughput.antt =====
-- src/c++/apps/client/client.hh: `log_throughput`, which counts the answered requests of each type in
-- each epoch. The number of a request's epoch, an `int` in two's complement, comes from
-- floating-point arithmetic and is a parameter.
mod Examples
pub mod Epochs
use Prim.Native.String.{String}
use psp.Base.{
  ℕ, ◌+◌, ◌-◌, ◌*◌, ◌%◌, ◌^◌, Bool, false, ◌&&◌, ◌||◌, List, [], ◌∷◌, ltb, ◌==◌, if◌then◌else◌,
  add64, u64_mod,
}
use psp.ReqType.{ReqType, req_type_str}
use psp.ClientTypes.{ClientRequest}
use psp.Client.{type_number}

-- an entry of `type_epoch_counts`
pub record Epoch : Type 0 where
  pub type : ReqType
  pub number : ℕ
  pub count : ℕ

abbrev pub is_key : ReqType → ℕ → Epoch → Bool
is_key type number e = type_number e.type == type_number type && e.number == number

-- `type_epoch_counts.find` and the increment; a new entry starts from 0
unfoldable pub has_epoch : ReqType → ℕ → List Epoch → Bool
has_epoch type number [] = false
has_epoch type number (e ∷ counts) = is_key type number e || has_epoch type number counts

unfoldable pub increment : ReqType → ℕ → List Epoch → List Epoch
increment type number [] = []
increment type number (e ∷ counts) =
    if is_key type number e
    then record e { count = add64 e.count 1 } ∷ counts
    else e ∷ increment type number counts

-- the loop over the requests
unfoldable pub count_epochs : (epoch_of : ℕ → ℕ) → List ClientRequest → List Epoch → List Epoch
count_epochs epoch_of [] counts = counts
count_epochs epoch_of (req ∷ reqs) counts =
    let number = epoch_of req.completed in
    let found =
      if has_epoch req.type number counts
      then counts
      else record { type = req.type; number = number; count = 0 } ∷ counts in
    count_epochs epoch_of reqs
      (if req.completed == 0 then counts else increment req.type number found)

-- an `int` as an `unsigned long`
abbrev pub extend_sign : ℕ → ℕ
extend_sign n = if ltb n (2 ^ 31) then n else n + 2 ^ 64 - 2 ^ 32

-- a line of the log: the worker, the epoch's start, the type and the count
abbrev pub Row : Type 0
Row = ℕ × ℕ × String × ℕ

unfoldable pub rows_of : (worker_id epoch_size_ns : ℕ) → List Epoch → List Row
rows_of worker_id epoch_size_ns [] = []
rows_of worker_id epoch_size_ns (e ∷ counts) =
    (worker_id, extend_sign e.number * epoch_size_ns % u64_mod, req_type_str e.type, e.count)
    ∷ rows_of worker_id epoch_size_ns counts

-- `log_throughput`: its lines, in the order in which the table gives its entries
unfoldable pub log_throughput :
    (epoch_of : ℕ → ℕ) (worker_id epoch_size_ns : ℕ) → List ClientRequest → List Row
log_throughput epoch_of worker_id epoch_size_ns requests =
    rows_of worker_id epoch_size_ns (count_epochs epoch_of requests [])
