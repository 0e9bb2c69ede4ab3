-- ===== src/Backend.antt =====
-- src/c++/libos/su/mb_su.cc and rocksdb_su.cc: what the workers do with a request before it is sent
-- back as the answer. Spinning, and the walk over the database, leave the packet as it is.
mod Examples
pub mod Answers
use psp.Base.{
  ℕ, zero, suc, Ptr, ◌+◌, ◌*◌, ◌%◌, ◌^◌, Bool, ◌==◌, if◌then◌else◌, update, add32, add64,
}
use psp.Udp.{Mbuf, Mbufs}
use psp.Client.{word, store, bytes_of}

-- the counters of a worker: requests, and those of the two types that it tells apart
pub record Counters : Type 0 where
  pub n_requests : ℕ
  pub n_first : ℕ
  pub n_second : ℕ

-- the `switch` on the type, with the numbers of the two types
unfoldable pub count_type : (first second type : ℕ) → Counters → Counters
count_type first second type w = record w {
  n_first = if type == first then add32 w.n_first 1 else w.n_first;
  n_second =
      if type == first
      then w.n_second
      else if type == second
      then add32 w.n_second 1
      else w.n_second;
  n_requests = add32 w.n_requests 1;
}

-- `*req_addr = 0`, which lies 12 bytes behind the headers
abbrev pub clear_size : Mbuf → Mbuf
clear_size pkt = record pkt { payload = word (store 12 (bytes_of 4 0) (λ i. pkt.payload i)) }

-- `MbWorker::process_request`; `SHORT` and `LONG` are 1 and 2, and the status is 0
unfoldable pub mb_process_request : Ptr → Counters → Mbufs → ℕ × Counters × Mbufs
mb_process_request payload w mem =
    let pkt = mem payload in
    (
      0,
      count_type 1 2 (pkt.payload 4) w,
      update mem payload (record (clear_size pkt) { l4_len = 12 }),
    )

-- `RdbWorker::process_request`; `GET` and `SCAN` are 10 and 11
unfoldable pub rdb_process_request : Ptr → Counters → Mbufs → ℕ × Counters × Mbufs
rdb_process_request payload w mem =
    let pkt = mem payload in
    (0, count_type 10 11 (pkt.payload 4) w, update mem payload (clear_size pkt))
