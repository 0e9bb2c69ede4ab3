-- ===== src/Udp.antt =====
-- include/psp/libos/io/udp_dpdk/context.hh and src/c++/libos/io/udp_dpdk/context.cc: the packet
-- queues between a worker and its NIC queue, as built without NET_DEBUG. The NIC is a parameter:
-- the packets that `rte_eth_rx_burst` yields, and how many of a burst `rte_eth_tx_burst` takes.
pub mod Examples
pub mod Headers
pub mod Receive
pub mod Transmit
use psp.Base.{
  ℕ, Ptr, null, zero, suc, ◌+◌, ◌-◌, ◌*◌, ◌/◌, ◌%◌, ◌^◌, bit_and, bit_or, List, [], ◌∷◌, ◌++◌,
  length, ltb, ◌==◌, if◌then◌else◌, update, add32, sub32, Run, ok, panic, ◌>>=◌,
}

-- `EAGAIN` and the queue lengths and burst sizes
abbrev pub eagain : ℕ
eagain = 11

abbrev pub inbound_q_len : ℕ
inbound_q_len = 128

abbrev pub outbound_q_len : ℕ
outbound_q_len = 128

abbrev pub max_tx_burst : ℕ
max_tx_burst = 8

abbrev pub max_rx_burst : ℕ
max_rx_burst = 8

-- the fields of `UdpContext` that change or that a packet is filled from; addresses and ports are
-- the numbers that the source stores, in its byte order
pub record UdpContext : Type 0 where
  pub inbound_queue : ℕ → Ptr
  pub pop_tail : ℕ
  pub pop_head : ℕ
  pub outbound_queue : ℕ → Ptr
  pub push_tail : ℕ
  pub push_head : ℕ
  pub ip : ℕ
  pub port : ℕ
  pub remote_ip : ℕ
  pub remote_port : ℕ
  pub my_mac : ℕ
  pub remote_mac : ℕ

-- an `rte_mbuf` with its Ethernet, IP and UDP headers; `data i` is the `uint32_t` that stands `i`
-- bytes behind them
pub record Mbuf : Type 0 where
  pub d_addr : ℕ
  pub s_addr : ℕ
  pub ether_type : ℕ
  pub version_ihl : ℕ
  pub total_length : ℕ
  pub time_to_live : ℕ
  pub next_proto_id : ℕ
  pub src_addr : ℕ
  pub dst_addr : ℕ
  pub src_port : ℕ
  pub dst_port : ℕ
  pub dgram_len : ℕ
  pub l2_len : ℕ
  pub l3_len : ℕ
  pub l4_len : ℕ
  pub ol_flags : ℕ
  pub data_len : ℕ
  pub pkt_len : ℕ
  pub nb_segs : ℕ
  pub payload : ℕ → ℕ

abbrev pub Mbufs : Type 0
Mbufs = Ptr → Mbuf

-- `htons` on a little-endian machine
abbrev pub htons : ℕ → ℕ
htons x = x % 256 * 256 + x / 256 % 256

-- `parse_packet`
unfoldable pub parse_packet : Ptr → UdpContext → UdpContext
parse_packet pkt ctx = record ctx {
  inbound_queue = update ctx.inbound_queue (bit_and ctx.pop_head (inbound_q_len - 1)) pkt;
  pop_head = add32 ctx.pop_head 1;
}

-- the loop of `recv_packets`; prefetching has no effect on the state
unfoldable pub parse_packets : List Ptr → UdpContext → UdpContext
parse_packets [] ctx = ctx
parse_packets (pkt ∷ pkts) ctx = parse_packets pkts (parse_packet pkt ctx)

-- `recv_packets`, with what `rte_eth_rx_burst` would yield; the result is the status
unfoldable pub recv_packets : List Ptr → UdpContext → ℕ × UdpContext
recv_packets pkts ctx =
    if ltb (sub32 ctx.pop_head ctx.pop_tail) (inbound_q_len - max_rx_burst)
    then if length pkts == 0 then (eagain, ctx) else (0, parse_packets pkts ctx)
    else (0, ctx)

-- the length of what follows the headers, by the sizes that the packet carries
abbrev pub data_size : Mbuf → ℕ
data_size pkt = pkt.l4_len + pkt.payload pkt.l4_len

-- the value of DPDK's flag `PKT_TX_IP_CKSUM`
module _ (cksum_flag : ℕ) where
  -- the header fields that `prepare_outbound_packet` writes, in its order
  unfoldable pub fill_headers : UdpContext → Mbuf → Mbuf
  fill_headers ctx pkt =
      let filled : Mbuf = record pkt {
        src_port = htons ctx.port;
        dgram_len = htons ((data_size pkt + 8) % 2 ^ 16);
        l4_len = 8;
        total_length = htons ((data_size pkt + 8 + 20) % 2 ^ 16);
        version_ihl = 0x45;
        time_to_live = 64;
        next_proto_id = 17;
        src_addr = ctx.ip;
        ol_flags = bit_or 0 cksum_flag;
        l3_len = 20;
      } in
      let addressed : Mbuf =
        if ctx.remote_mac == 0
        then record filled {
          d_addr = filled.s_addr;
          dst_port = filled.src_port;
          dst_addr = filled.src_addr;
        }
        else record filled {
          d_addr = ctx.remote_mac;
          dst_port = ctx.remote_port;
          dst_addr = ctx.remote_ip;
        } in
      record addressed {
        s_addr = ctx.my_mac;
        ether_type = htons 0x0800;
        l2_len = 14;
        data_len = (data_size pkt + 42) % 2 ^ 16;
        pkt_len = (data_size pkt + 42) % 2 ^ 32;
        nb_segs = 1;
      }

  -- `prepare_outbound_packet`
  unfoldable pub prepare_outbound_packet : UdpContext → Ptr → Mbufs → Run Mbufs
  prepare_outbound_packet ctx mbuf mem =
      if mbuf == null then panic else ok (update mem mbuf (fill_headers ctx (mem mbuf)))

  -- the loop of `send_packets`: the rounds are what is left of `MAX_TX_BURST`, and the list is
  -- `pkts`, the packets prepared so far
  unfoldable pub fill_burst :
      ℕ → UdpContext → Mbufs → List Ptr → Run (UdpContext × Mbufs × List Ptr)
  fill_burst zero ctx mem pkts = ok (ctx, mem, pkts)
  fill_burst (suc n) ctx mem pkts =
      if ltb ctx.push_tail ctx.push_head
      then (let pkt = ctx.outbound_queue (bit_and ctx.push_tail (outbound_q_len - 1)) in
          let ctx' : UdpContext = record ctx { push_tail = add32 ctx.push_tail 1 } in
          do
            mem' ← prepare_outbound_packet ctx' pkt mem
            fill_burst n ctx' mem' (pkts ++ (pkt ∷ [])))
      else ok (ctx, mem, pkts)

  -- `send_packets`: the status, and the burst that was handed to the NIC
  unfoldable pub send_packets :
      (tx_burst : List Ptr → ℕ) → UdpContext → Mbufs → Run (ℕ × UdpContext × Mbufs × List Ptr)
  send_packets tx_burst ctx mem = do
    (ctx', mem', pkts) ← fill_burst max_tx_burst ctx mem []
    if ltb 0 (length pkts)
        then if ltb (tx_burst pkts) (length pkts)
          then ok (eagain, ctx', mem', pkts)
          else ok (0, ctx', mem', pkts)
        else ok (0, ctx', mem', pkts)

  -- `poll`: `PSP_OK` aborts on any status but 0
  unfoldable pub poll :
      (tx_burst : List Ptr → ℕ)
      → List Ptr
      → UdpContext
      → Mbufs
      → Run (ℕ × UdpContext × Mbufs × List Ptr)
  poll tx_burst rx ctx mem =
      let (status, ctx') = recv_packets rx ctx in
      if status == 0
      then (do
        (sent, ctx'', mem', pkts) ← send_packets tx_burst ctx' mem
        if sent == 0 then ok (0, ctx'', mem', pkts) else panic)
      else panic
