-- ===== src/Ingress/Examples.antt =====
-- A context at 10.0.0.1, port 6789, with a NIC that takes every rule.
use psp.Base.{◌≡◌, ◌↔◌, [], arith, pos}
use psp.Udp.{htons}
use psp.Ingress.{FdirContext, ipv4_rule, fdir_filter, set_fdir}
use psp.Ingress.Select.{Headers, Matches, SteersTo, fdir_result, set_fdir-Steers}

abbrev server : FdirContext
server = record { id = 1; ip = 0x0100000a; port = 6789; flows = [] }

abbrev udp_packet : Headers
udp_packet = record {
  proto = 17;
  src_ip = 0x0200000a;
  dst_ip = 0x0100000a;
  sport = 4000;
  dport = htons 6789;
  proto_width = omega arith;
  dst_ip_width = omega arith;
  dport_width = omega arith;
}

set_fdir-Steers_example :
    (set_fdir (λ rule. pos 0) (λ rule. 48) server ≡ fdir_result server 48)
    × ((ipv4_rule 1 (fdir_filter server)).ingress ≡ 1)
    × SteersTo 1 (ipv4_rule 1 (fdir_filter server)).actions
    × (Matches udp_packet (ipv4_rule 1 (fdir_filter server)).pattern_items ↔ (
        (udp_packet.proto ≡ 17)
        × (udp_packet.dst_ip ≡ server.ip)
        × (udp_packet.dport ≡ htons 6789)))
set_fdir-Steers_example =
    set_fdir-Steers (λ rule. pos 0) (λ rule. 48) server udp_packet (omega arith)
