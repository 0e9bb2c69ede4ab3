-- ===== src/Backend/Answers.antt =====
-- The answers of the workers of mb_su.cc and rocksdb_su.cc: their id, their type and their length.
use psp.Base.{ℕ, Ptr, ◌+◌, ◌%◌, ◌≤◌, ◌≡◌, refl, ap, add32, [], ◌∙◌, arith, update_self}
use psp.Udp.{Mbuf, Mbufs, data_size}
use psp.ClientTypes.{psp_mb}
use psp.Client.{Client, word, bytes_of, tag, answer_position}
use psp.Client.Messages.{word-store, word-bytes, Generated}
use psp.Backend.{Counters, clear_size, count_type, mb_process_request, rdb_process_request}

-- the words of a packet overlap as those of its bytes do
abbrev pub IsBytes : Mbuf → (ℕ → ℕ) → Type 0
IsBytes pkt b = (i : ℕ) → pkt.payload i ≡ word b i

low_byte : (b : ℕ → ℕ) (i : ℕ) → word b i % 256 ≡ b i % 256
low_byte b i = omega arith

word-word :
    (pkt : Mbuf) (b : ℕ → ℕ) (i : ℕ) → IsBytes pkt b → word (λ j. pkt.payload j) i ≡ pkt.payload i
word-word pkt b i is =
    rw (is i, is (i + 1), is (i + 2), is (i + 3))
      (omega (arith, low_byte b i, low_byte b (i + 1), low_byte b (i + 2), low_byte b (i + 3)))

-- the words before the size are kept
pub clear_size-before :
    (pkt : Mbuf) (b : ℕ → ℕ) (i : ℕ)
    → i + 4 ≤ 12
    → IsBytes pkt b
    → (clear_size pkt).payload i ≡ pkt.payload i
clear_size-before pkt b i le is =
    word-store 12 (bytes_of 4 0) (λ j. pkt.payload j) i le ∙ word-word pkt b i is

size_cleared : (pkt : Mbuf) → (clear_size pkt).payload 12 ≡ 0
size_cleared pkt = word-bytes 0 12 [] (λ i. pkt.payload i) (omega arith)

-- what an answer of the microbenchmark is made of
pub record Answered (pkt answer : Mbuf) : Type 0 where
  pub length : data_size answer ≡ 12
  pub id : answer.payload 0 ≡ pkt.payload 0
  pub type : answer.payload 4 ≡ pkt.payload 4
  pub size : answer.payload 8 ≡ pkt.payload 8

-- The worker of the microbenchmark answers every request by a packet of 12 bytes of data: the id and
-- the type of the request, and then the size that the request gave, as they came.
pub mb_process_request-Answered :
    (p : Ptr) (w : Counters) (mem : Mbufs) (b : ℕ → ℕ)
    → IsBytes (mem p) b
    → ((mb_process_request p w mem).0 ≡ 0)
      × Answered (mem p) ((mb_process_request p w mem).2 p)
      × ((mb_process_request p w mem).1.n_requests ≡ add32 w.n_requests 1)
unfolding mb_process_request count_type
mb_process_request-Answered p w mem b is = (
  refl,
  rw (update_self mem p (record (clear_size (mem p)) { l4_len = 12 })) (record {
    length = omega (arith, size_cleared (mem p));
    id = clear_size-before (mem p) b 0 (omega arith) is;
    type = clear_size-before (mem p) b 4 (omega arith) is;
    size = clear_size-before (mem p) b 8 (omega arith) is;
  }),
  refl,
)

-- The worker of the database does not set the length: in a packet that is received with length 0, as
-- the pool gives it, the answer is as long as the number that is the id of the request.
pub rdb_process_request-length :
    (p : Ptr) (w : Counters) (mem : Mbufs) (b : ℕ → ℕ)
    → IsBytes (mem p) b
    → (mem p).l4_len ≡ 0
    → data_size ((rdb_process_request p w mem).2 p) ≡ (mem p).payload 0
unfolding rdb_process_request
rdb_process_request-length p w mem b is empty =
    rw (update_self mem p (clear_size (mem p)), empty)
      (omega (arith, clear_size-before (mem p) b 0 (omega arith) is))

-- The message of a prepared request reaches a worker of the microbenchmark and comes back as 12
-- bytes of data: the answer is looked up at the id that the request had.
pub round_trip :
    (alloc : Ptr) (pkt_size send_index : ℕ) (c c' : Client) (p : Ptr) (w : Counters) (mem : Mbufs)
    (b : ℕ → ℕ)
    → Generated alloc psp_mb pkt_size send_index c c'
    → IsBytes (mem p) b
    → (mem p).payload 0 ≡ (c'.mbufs alloc).payload 0
    → (data_size ((mb_process_request p w mem).2 p) ≡ 12)
      × (answer_position psp_mb c.worker_id ((mb_process_request p w mem).2 p)
          ≡ (c.requests (add32 send_index c.send_offset)).id)
round_trip alloc pkt_size send_index c c' p w mem b made is sent =
    let answered = (mb_process_request-Answered p w mem b is).1 in
    (answered.length, ap (tag c.worker_id) (answered.id ∙ sent) ∙ made.answer)
