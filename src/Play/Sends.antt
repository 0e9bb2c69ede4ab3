-- ===== src/Play/Sends.antt =====
-- Each attempt to send a request ends.
use psp.Base.{
  ℕ, zero, suc, Ptr, ◌||◌, ◌≡◌, refl, Option, none, some, List, ltb, Ended, Ended-ok, Ended-panic,
  Ended-fault, Ended-if, ending,
}
use psp.Udp.{UdpContext, Mbufs, fill_burst, prepare_outbound_packet, send_packets}
use psp.ClientTypes.{PktType, psp_mb, ix, raw, other, ClientRequest}
use psp.Client.{Client, gen_next_req, send_request, message}

fill_burst-Ended :
    (flag n : ℕ) (ctx : UdpContext) (mem : Mbufs) (pkts : List Ptr)
    → Ended (fill_burst flag n ctx mem pkts)
unfolding fill_burst prepare_outbound_packet
fill_burst-Ended flag zero ctx mem pkts = Ended-ok _
fill_burst-Ended flag (suc n) ctx mem pkts = search (ending, fill_burst-Ended flag n)

send_packets-Ended :
    (flag : ℕ) (tx_burst : List Ptr → ℕ) (ctx : UdpContext) (mem : Mbufs)
    → Ended (send_packets flag tx_burst ctx mem)
unfolding send_packets
send_packets-Ended flag tx_burst ctx mem = search (ending, fill_burst-Ended)

pub send_request-Ended :
    (flag : ℕ) (tx_burst : List Ptr → ℕ) (tsc i : ℕ) (c : Client)
    → Ended (send_request flag tx_burst tsc i c)
unfolding send_request
send_request-Ended flag tx_burst tsc i c = search (ending, send_packets-Ended)

message-Ended :
    (ptype : PktType) (pkt_size w : ℕ) (cr : ClientRequest) → Ended (message ptype pkt_size w cr)
unfolding message
message-Ended psp_mb pkt_size w cr = Ended-ok _
message-Ended ix pkt_size w cr = Ended-ok _
message-Ended raw pkt_size w cr =
    Ended-if (ltb pkt_size 4 || ltb 982 pkt_size) _ _ (Ended-fault _) (Ended-ok _)
message-Ended other pkt_size w cr = Ended-panic _

module _ (alloc : Ptr) (ptype : PktType) (pkt_size send_index : ℕ) (c : Client) where
  next_cr-Ended :
      (o : Option ℕ) → c.next_cr ≡ o → Ended (gen_next_req alloc ptype pkt_size send_index c)
  unfolding gen_next_req
  next_cr-Ended (some i) e = rw e (Ended-ok _)
  next_cr-Ended none e = rw e (search (ending, message-Ended))

  pub gen_next_req-Ended : Ended (gen_next_req alloc ptype pkt_size send_index c)
  gen_next_req-Ended = next_cr-Ended c.next_cr refl
