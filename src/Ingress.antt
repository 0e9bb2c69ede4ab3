-- ===== src/Ingress.antt =====
-- The rule by which the NIC steers packets to the receive queue of a UDP context:
-- `generate_ipv4_flow` of src/c++/libos/io/udp_dpdk/dpdk.cc and `UdpContext::set_fdir` of
-- src/c++/libos/io/udp_dpdk/context.cc. What `rte_flow_validate` and `rte_flow_create` return is a
-- parameter.
mod Examples
pub mod Select
use psp.Base.{
  ℕ, zero, Ptr, null, ◌+◌, ◌*◌, ◌/◌, ◌%◌, List, [], ◌∷◌, ◌++◌, ◌==◌, if◌then◌else◌, ℤ, pos,
}
use psp.Udp.{htons}

-- `ENOTRECOVERABLE` and `IPPROTO_UDP`
abbrev pub enotrecoverable : ℕ
enotrecoverable = 131

abbrev pub ipproto_udp : ℕ
ipproto_udp = 17

-- `rte_eth_ntuple_filter`, the fields that `set_fdir` fills
pub record NtupleFilter : Type 0 where
  pub src_ip : ℕ
  pub dst_ip : ℕ
  pub src_ip_mask : ℕ
  pub dst_ip_mask : ℕ
  pub proto : ℕ
  pub proto_mask : ℕ
  pub src_port : ℕ
  pub dst_port : ℕ
  pub src_port_mask : ℕ
  pub dst_port_mask : ℕ

-- the fields of an IPv4 header and of a UDP header in a pattern; what else such a header has is 0
pub record Ipv4Hdr : Type 0 where
  pub next_proto_id : ℕ
  pub src_addr : ℕ
  pub dst_addr : ℕ

pub record UdpHdr : Type 0 where
  pub src_port : ℕ
  pub dst_port : ℕ
  pub dgram_len : ℕ
  pub dgram_cksum : ℕ

-- `rte_flow_item`: a header with its specification and its mask
pub data FlowItem : Type 0 where
  eth_item : FlowItem
  ipv4_item : (spec mask : Ipv4Hdr) → FlowItem
  udp_item : (spec mask : UdpHdr) → FlowItem
  end_item : FlowItem

-- `rte_flow_action`
pub data FlowAction : Type 0 where
  count_action : (shared id : ℕ) → FlowAction
  queue_action : (index : ℕ) → FlowAction
  end_action : FlowAction

-- what a flow is made of
pub record FlowRule : Type 0 where
  pub ingress : ℕ
  pub pattern_items : List FlowItem
  pub actions : List FlowAction

-- the rule that `generate_ipv4_flow` fills
unfoldable pub ipv4_rule : (rx_q : ℕ) → NtupleFilter → FlowRule
ipv4_rule rx_q f = record {
  ingress = 1;
  pattern_items =
      eth_item
      ∷ ipv4_item (record { next_proto_id = f.proto; src_addr = f.src_ip; dst_addr = f.dst_ip })
          (record {
            next_proto_id = f.proto_mask;
            src_addr = f.src_ip_mask;
            dst_addr = f.dst_ip_mask;
          })
      ∷ udp_item
          (record { src_port = f.src_port; dst_port = f.dst_port; dgram_len = 0; dgram_cksum = 0 })
          (record {
            src_port = f.src_port_mask;
            dst_port = f.dst_port_mask;
            dgram_len = 0;
            dgram_cksum = 0;
          })
      ∷ end_item
      ∷ [];
  actions = count_action 0 rx_q ∷ queue_action rx_q ∷ end_action ∷ [];
}

-- the parts of a `UdpContext` that `set_fdir` uses
pub record FdirContext : Type 0 where
  pub id : ℕ
  pub ip : ℕ
  pub port : ℕ
  pub flows : List Ptr

-- `htonl` on a little-endian machine
abbrev pub htonl : ℕ → ℕ
htonl x =
    x % 256 * 0x1000000 + x / 256 % 256 * 0x10000 + x / 0x10000 % 256 * 256 + x / 0x1000000 % 256

-- the filter that `set_fdir` fills, for the subnet 0.0.0.0
unfoldable pub fdir_filter : FdirContext → NtupleFilter
fdir_filter ctx = record {
  src_ip = htonl 0;
  dst_ip = ctx.ip;
  src_ip_mask = 0;
  dst_ip_mask = 0xffffffff;
  proto = ipproto_udp;
  proto_mask = 0xff;
  src_port = 0;
  dst_port = htons ctx.port;
  src_port_mask = 0;
  dst_port_mask = 0xffff;
}

module _ (validate : FlowRule → ℤ) (create : FlowRule → Ptr) where
  -- `generate_ipv4_flow`
  unfoldable pub generate_ipv4_flow : (rx_q : ℕ) → NtupleFilter → Ptr
  generate_ipv4_flow rx_q f =
      let rule = ipv4_rule rx_q f in elim (validate rule) [ pos zero ↦ create rule | _ ↦ null ]

  -- `set_fdir`; the result is the status
  unfoldable pub set_fdir : FdirContext → ℕ × FdirContext
  set_fdir ctx =
      let flow = generate_ipv4_flow ctx.id (fdir_filter ctx) in
      if flow == null
      then (enotrecoverable, ctx)
      else (0, record ctx { flows = ctx.flows ++ (flow ∷ []) })
