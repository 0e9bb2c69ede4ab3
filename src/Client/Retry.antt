-- ===== src/Client/Retry.antt =====
-- What becomes of a request for which the pool had no packet, of client.hh.
use psp.Base.{
  ℕ, Ptr, null, ◌+◌, ◌^◌, ◌<◌, ◌≡◌, refl, true, false, none, some, List, arith, ◌==◌, ltb, lt→ltb,
  if◌then◌else◌, bit_and, update, update_self, add32, sub32, Run, ok, panic, ◌>>=◌,
}
use psp.Udp.{eagain, send_packets, fill_burst, prepare_outbound_packet}
use psp.AppWorker.{put_outbound}
use psp.ClientTypes.{PktType}
use psp.Client.{Client, tag, get_mbuf, gen_next_req, send_request}

-- `gen_next_req` and then, if it succeeds, `send_request`, as `play_schedule` runs them
abbrev pub gen_and_send :
    (cksum_flag : ℕ)
    → (List Ptr → ℕ)
    → (tsc i alloc : ℕ) → PktType
    → (pkt_size send_index : ℕ) → Client
    → Run (ℕ × Client)
gen_and_send cksum_flag tx_burst tsc i alloc ptype pkt_size send_index c = do
  (status, c') ← gen_next_req alloc ptype pkt_size send_index c
  if status == 0 then send_request cksum_flag tx_burst tsc i c' else ok (status, c')

-- a null packet at the head of an outbound queue that was empty
null_aborts :
    (cksum_flag : ℕ) (tx_burst : List Ptr → ℕ) (c : Client)
    → c.udp.push_head ≡ c.udp.push_tail
    → c.udp.push_tail + 1 < 2 ^ 32
    → send_packets cksum_flag tx_burst (put_outbound 0 c.udp) c.mbufs ≡ panic
unfolding send_packets fill_burst prepare_outbound_packet
null_aborts cksum_flag tx_burst c empty bound =
    let waits : ltb c.udp.push_tail (add32 c.udp.push_head 1) ≡ true = ground arith in
    rw (waits, empty, update_self c.udp.outbound_queue (bit_and c.udp.push_tail 127) 0) refl

module _ (ptype : PktType) (pkt_size send_index : ℕ) (c : Client) where
  abbrev pub position : ℕ
  position = add32 send_index c.send_offset

  -- the state that the failed attempt leaves
  abbrev pub left_over : Client
  left_over = record c {
    next_cr = some position;
    requests =
        update c.requests position
          (record (c.requests position) { id = tag c.worker_id (c.requests position).id });
  }

  -- When the pool has no packet for the next request, `gen_next_req` returns `EAGAIN` but leaves the
  -- request as the prepared one; the next attempt takes it as it is, whatever the pool has by then,
  -- and aborts the process on its null packet, if the outbound queue is empty and its counter is
  -- not about to wrap.
  pub gen_next_req-aborts :
      (cksum_flag : ℕ) (tx_burst : List Ptr → ℕ) (tsc alloc : ℕ)
      → c.next_cr ≡ none
      → position < c.size
      → (c.requests position).mbuf ≡ null
      → c.udp.push_head ≡ c.udp.push_tail
      → c.udp.push_tail + 1 < 2 ^ 32
      → (gen_next_req null ptype pkt_size send_index c ≡ ok (eagain, left_over))
        × (gen_and_send cksum_flag tx_burst tsc position alloc ptype pkt_size send_index left_over
            ≡ panic)
  unfolding gen_next_req get_mbuf send_request
  gen_next_req-aborts cksum_flag tx_burst tsc alloc fresh inside no_mbuf empty bound = (
    rw (fresh, lt→ltb position c.size inside, no_mbuf) refl,
    rw
        (
          update_self c.requests position
              (record (c.requests position) { id = tag c.worker_id (c.requests position).id }),
          no_mbuf,
          not_full,
          null_aborts cksum_flag tx_burst c empty bound,
        )
        refl,
  )
    where
      not_full : (sub32 c.udp.push_head c.udp.push_tail == 128) ≡ false
      not_full = ground arith
