-- ===== src/Udp/Examples.antt =====
-- A context with two packets waiting on either side.
use psp.Base.{◌+◌, ◌≡◌, refl, [], ◌∷◌, length, arith, ok}
use psp.Udp.{UdpContext, Mbuf, Mbufs, eagain, recv_packets, send_packets}
use psp.Udp.Receive.{Inbound, received, recv_status, recv_packets-Inbound}
use psp.Udp.Transmit.{Outbound, fill_all, send_packets-Outbound, send_packets-wrapped}

-- packets 9 and 10 wait in both queues, from slot 3 on
abbrev pub two_packets : UdpContext
two_packets = record {
  inbound_queue = λ i. 6 + i;
  pop_tail = 3;
  pop_head = 5;
  outbound_queue = λ i. 6 + i;
  push_tail = 3;
  push_head = 5;
  ip = 11;
  port = 4321;
  remote_ip = 22;
  remote_port = 1234;
  my_mac = 33;
  remote_mac = 0;
}

-- a packet of 20 bytes of data
abbrev echo_packet : Mbuf
echo_packet = record {
  d_addr = 33;
  s_addr = 44;
  ether_type = 8;
  version_ihl = 0x45;
  total_length = 0;
  time_to_live = 64;
  next_proto_id = 17;
  src_addr = 22;
  dst_addr = 11;
  src_port = 1234;
  dst_port = 4321;
  dgram_len = 0;
  l2_len = 14;
  l3_len = 20;
  l4_len = 8;
  ol_flags = 0;
  data_len = 62;
  pkt_len = 62;
  nb_segs = 1;
  payload = λ i. 12;
}

abbrev pub packets : Mbufs
packets = λ p. echo_packet

two_packets-Inbound : Inbound 3 (9 ∷ 10 ∷ []) two_packets
two_packets-Inbound = record {
  pending = (refl, (refl, tt));
  tail = refl;
  head = refl;
  fits = omega arith;
}

two_packets-Outbound : Outbound 3 (9 ∷ 10 ∷ []) two_packets
two_packets-Outbound = record {
  pending = (refl, (refl, tt));
  tail = refl;
  head = refl;
  no_wrap = omega arith;
  set = (refl, (refl, tt));
}

recv_packets-Inbound_example :
    Inbound 3 (received (9 ∷ 10 ∷ []) (50 ∷ [])) (recv_packets (50 ∷ []) two_packets).1
    × ((recv_packets (50 ∷ []) two_packets).0 ≡ recv_status (9 ∷ 10 ∷ []) (50 ∷ []))
recv_packets-Inbound_example =
    recv_packets-Inbound (50 ∷ []) (9 ∷ 10 ∷ []) two_packets-Inbound (omega arith)

-- the NIC takes one packet of a burst
send_packets-Outbound_example :
    (send_packets 1 (λ pkts. 1) two_packets packets
      ≡ ok (
        eagain,
        record two_packets { push_tail = 5 },
        fill_all 1 two_packets (9 ∷ 10 ∷ []) packets,
        9 ∷ 10 ∷ [],
      ))
    × Outbound 5 [] (record two_packets { push_tail = 5 })
send_packets-Outbound_example =
    send_packets-Outbound 1 (λ pkts. 1) 3 (9 ∷ 10 ∷ []) two_packets packets two_packets-Outbound

-- the last packet before the counter wraps, and two more
abbrev wrapped : UdpContext
wrapped = record two_packets { push_tail = 4_294_967_295; push_head = 2 }

send_packets-wrapped_example :
    send_packets 1 (λ pkts. length pkts) wrapped packets ≡ ok (0, wrapped, packets, [])
send_packets-wrapped_example =
    send_packets-wrapped 1 (λ pkts. length pkts) wrapped packets (4_294_967_295) 3 (omega arith)
      refl (omega arith) (omega arith) refl
