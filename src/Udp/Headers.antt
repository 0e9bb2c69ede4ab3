-- ===== src/Udp/Headers.antt =====
-- What `prepare_outbound_packet` writes into the headers, and `poll`.
use psp.Base.{Ptr}
use psp.Base.{
  ℕ, ◌+◌, ◌^◌, ◌<◌, ◌≡◌, refl, List, [], length, arith, ◌==◌, Bool-cases, inl, inr, if◌then◌else◌,
  panic, lt→ltb,
}
use psp.Udp.{UdpContext, Mbuf, Mbufs, htons, data_size, fill_headers, recv_packets, poll}
use psp.Udp.Receive.{Inbound, waiting}

module _ (flag : ℕ) (ctx : UdpContext) (pkt : Mbuf) where
  -- where the packet goes, when a remote address is configured (a client)
  abbrev pub ToRemote : Type 0
  ToRemote =
      ((fill_headers flag ctx pkt).d_addr ≡ ctx.remote_mac)
      × ((fill_headers flag ctx pkt).dst_addr ≡ ctx.remote_ip)
      × ((fill_headers flag ctx pkt).dst_port ≡ ctx.remote_port)

  -- and when none is (a server): the frame goes back to where it came from, and the IP address and
  -- the UDP port are those of the sender itself
  abbrev pub ToSelf : Type 0
  ToSelf =
      ((fill_headers flag ctx pkt).d_addr ≡ pkt.s_addr)
      × ((fill_headers flag ctx pkt).dst_addr ≡ ctx.ip)
      × ((fill_headers flag ctx pkt).dst_port ≡ htons ctx.port)

  -- Every packet leaves from this context's own MAC, IP and port. With a remote MAC it goes to the
  -- configured remote MAC, IP and port. With none it goes to the MAC that it came from but to this
  -- context's own IP address and port, whatever address the request came from.
  pub addresses :
      ((fill_headers flag ctx pkt).s_addr ≡ ctx.my_mac)
      × ((fill_headers flag ctx pkt).src_addr ≡ ctx.ip)
      × ((fill_headers flag ctx pkt).src_port ≡ htons ctx.port)
      × (if ctx.remote_mac == 0 then ToSelf else ToRemote)
  unfolding fill_headers
  addresses = elim (Bool-cases (ctx.remote_mac == 0)) [
    | inl server ↦ rw server (refl, refl, refl, (refl, refl, refl))
    | inr client ↦ rw client (refl, refl, refl, (refl, refl, refl))
  ]

  -- For a packet whose IP length fits 16 bits, the three lengths agree: the UDP length counts the
  -- data and its own header, the IP length that and 20 bytes more, and the frame 14 more.
  pub lengths :
      data_size pkt + 42 < 2 ^ 16
      → (htons (fill_headers flag ctx pkt).dgram_len ≡ data_size pkt + 8)
        × (htons (fill_headers flag ctx pkt).total_length
            ≡ htons (fill_headers flag ctx pkt).dgram_len + 20)
        × ((fill_headers flag ctx pkt).pkt_len
            ≡ htons (fill_headers flag ctx pkt).total_length + 14)
        × ((fill_headers flag ctx pkt).data_len ≡ (fill_headers flag ctx pkt).pkt_len)
  unfolding fill_headers
  lengths small = ground arith

-- While fewer than 120 packets wait in the inbound queue, a `poll` that receives no packet aborts the process, since
-- `PSP_OK` takes the `EAGAIN` of `recv_packets` for a failure.
pub poll-panic :
    (flag : ℕ) (tx_burst : List Ptr → ℕ) {t : ℕ} {ctx : UdpContext} (q : List Ptr) (mem : Mbufs)
    → Inbound t q ctx
    → length q < 120
    → poll flag tx_burst [] ctx mem ≡ panic
unfolding poll recv_packets
poll-panic flag tx_burst q mem i room = rw (waiting q i, lt→ltb (length q) 120 room)
