-- ===== src/Client.antt =====
-- src/c++/apps/client/client.hh: the requests of the load generator. How one is built, sent, and
-- found again by its answer.
pub mod Examples
pub mod Ids
pub mod Messages
pub mod Retry
use psp.Base.{
  ◌||◌, ℕ, zero, suc, Ptr, null, ◌+◌, ◌-◌, ◌*◌, ◌/◌, ◌%◌, ◌^◌, Bool, not, Option, none, some, List,
  [], ◌∷◌, ◌++◌, ltb, ◌==◌, if◌then◌else◌, bit_and, bit_xor, update, add32, sub32, Run, ok, panic,
  fault, ◌>>=◌,
}
use psp.ReqType.{ReqType}
use psp.ClientTypes.{PktType, psp_mb, ix, raw, other, ClientRequest}
use psp.Udp.{UdpContext, Mbuf, Mbufs, eagain, outbound_q_len, send_packets}
use psp.AppWorker.{put_outbound}

-- `ENOMEM`
abbrev pub enomem : ℕ
enomem = 12

-- the number of a type, as `static_cast` gives it
abbrev pub type_number : ReqType → ℕ
type_number ReqType.unknown = 0
type_number ReqType.short = 1
type_number ReqType.long = 2
type_number ReqType.page = 3
type_number ReqType.regex = 4
type_number ReqType.new_order = 5
type_number ReqType.payment = 6
type_number ReqType.delivery = 7
type_number ReqType.order_status = 8
type_number ReqType.stock_level = 9
type_number ReqType.get = 10
type_number ReqType.scan = 11

-- The parts of a `Client` that its functions use. `requests` holds the requests that the `size`
-- pointers of the vector point to, `next_cr` the position of the one that it points to, if it is not
-- null, and `freed` the packets that were given back. A place that lies outside a vector is `fault`.
pub record Client : Type 0 where
  pub worker_id : ℕ
  pub requests : ℕ → ClientRequest
  pub size : ℕ
  pub send_offset : ℕ
  pub next_cr : Option ℕ
  pub udp : UdpContext
  pub mbufs : Mbufs
  pub freed : List Ptr

-- the `uint32_t` at byte `i`, and stores of bytes, the lowest first
abbrev pub word : (ℕ → ℕ) → ℕ → ℕ
word bytes i =
    bytes i % 256
    + bytes (i + 1) % 256 * 2 ^ 8
    + bytes (i + 2) % 256 * 2 ^ 16
    + bytes (i + 3) % 256 * 2 ^ 24

abbrev pub store : ℕ → List ℕ → (ℕ → ℕ) → ℕ → ℕ
store i [] bytes = bytes
store i (b ∷ bs) bytes = store (i + 1) bs (update bytes i b)

-- the lowest `n` bytes of a number
abbrev pub bytes_of : ℕ → ℕ → List ℕ
bytes_of zero v = []
bytes_of (suc n) v = v % 256 ∷ bytes_of n (v / 256)

abbrev pub ones : ℕ → List ℕ
ones zero = []
ones (suc n) = 1 ∷ ones n

-- an `IXMessage` of 42 bytes, packed
abbrev pub ix_message : (worker_id : ℕ) → ClientRequest → List ℕ
ix_message worker_id cr =
    bytes_of 2 (type_number cr.type)
    ++ (bytes_of 2 42
        ++ (bytes_of 12 0
            ++ (bytes_of 2 worker_id
                ++ (bytes_of 4 cr.id
                    ++ (bytes_of 4 42 ++ (bytes_of 8 cr.run_ns ++ bytes_of 8 0))))))

-- what `gen_next_req` writes behind the headers, and the length it notes, for each type of packet.
-- A raw packet of less than 4 bytes makes the length of `memset` wrap, which overruns the packet, as
-- one of more bytes does than its buffer of 1024 has behind the headers.
unfoldable pub message : PktType → (pkt_size worker_id : ℕ) → ClientRequest → Run (ℕ × List ℕ)
message ix pkt_size worker_id cr = ok (42, ix_message worker_id cr)
message raw pkt_size worker_id cr =
    if ltb pkt_size 4 || ltb 982 pkt_size
    then fault
    else ok (pkt_size, bytes_of 4 cr.id ++ ones (pkt_size - 4))
message psp_mb pkt_size worker_id cr = ok (
  16,
  bytes_of 4 cr.id ++ (bytes_of 4 (type_number cr.type) ++ (bytes_of 4 4 ++ bytes_of 4 cr.run_ns)),
)
message other pkt_size worker_id cr = panic

-- a message in a packet; `l4_len` has 8 bits
abbrev pub put_message : ℕ → List ℕ → Mbuf → Mbuf
put_message len bs pkt = record pkt {
  payload = word (store 0 bs (λ i. pkt.payload i));
  l4_len = len % 256;
}

-- `id ^= worker_id << 27`
abbrev pub tag : ℕ → ℕ → ℕ
tag worker_id id = bit_xor id (worker_id * 2 ^ 27 % 2 ^ 32)

-- `get_mbuf`, with what `rte_pktmbuf_alloc` returns: the status and `mbuf_out`
unfoldable pub get_mbuf : (alloc mbuf_out : Ptr) → ℕ × Ptr
get_mbuf alloc mbuf_out =
    if mbuf_out == null then if alloc == null then (enomem, null) else (0, alloc) else (0, mbuf_out)

-- `gen_next_req`, with what `rte_pktmbuf_alloc` returns
unfoldable pub gen_next_req :
    (alloc : Ptr) → PktType → (pkt_size send_index : ℕ) → Client → Run (ℕ × Client)
gen_next_req alloc ptype pkt_size send_index c = elim c.next_cr [
  | some i ↦ ok (0, c)
  | none ↦
      let i = add32 send_index c.send_offset in
      let cr : ClientRequest = record (c.requests i) { id = tag c.worker_id (c.requests i).id } in
      let c' : Client = record c { next_cr = some i; requests = update c.requests i cr } in
      if not (ltb i c.size)
      then fault
      else if cr.mbuf == null
      then (let (status, mbuf) = get_mbuf alloc cr.mbuf in
          if status == enomem then ok (eagain, c') else (do
            (len, bs) ← message ptype pkt_size c.worker_id cr
            ok (
              0,
              record c' {
                requests = update c'.requests i (record cr { mbuf = mbuf });
                mbufs = update c'.mbufs mbuf (put_message len bs (c'.mbufs mbuf));
              },
            )))
      else panic
]

module _ (cksum_flag : ℕ) (tx_burst : List Ptr → ℕ) where
  -- `send_request` of the request at a position, at the time that it reads
  unfoldable pub send_request : (tsc i : ℕ) → Client → Run (ℕ × Client)
  send_request tsc i c =
      if sub32 c.udp.push_head c.udp.push_tail == outbound_q_len then ok (eagain, c) else (do
        (status, udp, mbufs, pkts) ←
            send_packets cksum_flag tx_burst (put_outbound (c.requests i).mbuf c.udp) c.mbufs
        if status == 0
            then ok (
              0,
              record c {
                udp = udp;
                mbufs = mbufs;
                requests = update c.requests i (record (c.requests i) { sending = tsc });
              },
            )
            else panic)

-- the id that an answer carries, and the position that it is looked up at
abbrev pub answer_id : PktType → Mbuf → ℕ
answer_id ix pkt = pkt.payload 18
answer_id ptype pkt = pkt.payload 0

abbrev pub answer_position : PktType → (worker_id : ℕ) → Mbuf → ℕ
answer_position ptype worker_id pkt = tag worker_id (answer_id ptype pkt)
