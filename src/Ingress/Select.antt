-- ===== src/Ingress/Select.antt =====
-- Which packets the rule of `set_fdir` steers, and to which queue.
use psp.Base.{
  ℕ, zero, Ptr, null, ◌-◌, ◌^◌, ◌<◌, ◌≡◌, ◌↔◌, refl, List, [], ◌∷◌, ◌++◌, arith, ◌==◌,
  if◌then◌else◌, bit_and, ℤ, pos,
}
use psp.Base.Bits.{bit_and-mask}
use psp.Udp.{htons}
use psp.Ingress.{
  FlowItem, eth_item, ipv4_item, udp_item, end_item, FlowAction, count_action, queue_action,
  end_action, FlowRule, ipv4_rule, FdirContext, fdir_filter, generate_ipv4_flow, set_fdir,
}

-- the headers of a packet, within their widths
pub record Headers : Type 0 where
  pub proto : ℕ
  pub src_ip : ℕ
  pub dst_ip : ℕ
  pub sport : ℕ
  pub dport : ℕ
  pub proto_width : proto < 2 ^ 8
  pub dst_ip_width : dst_ip < 2 ^ 32
  pub dport_width : dport < 2 ^ 16

-- a field agrees with the specification in the bits of the mask
abbrev pub Agrees : (field spec mask : ℕ) → Type 0
Agrees field spec mask = bit_and field mask ≡ bit_and spec mask

-- a packet with these headers matches each item
abbrev pub Matches : Headers → List FlowItem → Type 0
Matches h [] = Unit
Matches h (eth_item ∷ items) = Matches h items
Matches h (ipv4_item spec mask ∷ items) =
    Agrees h.proto spec.next_proto_id mask.next_proto_id
    × Agrees h.src_ip spec.src_addr mask.src_addr
    × Agrees h.dst_ip spec.dst_addr mask.dst_addr
    × Matches h items
Matches h (udp_item spec mask ∷ items) =
    Agrees h.sport spec.src_port mask.src_port
    × Agrees h.dport spec.dst_port mask.dst_port
    × Matches h items
Matches h (end_item ∷ items) = Unit

masked_zero : (a b : ℕ) → Agrees a b 0
masked_zero a b = omega (arith, bit_and-mask 0 a, bit_and-mask 0 b)

-- a number below the mask's bound is kept whole
masked : (k a : ℕ) → a < 2 ^ k → bit_and a (2 ^ k - 1) ≡ a
masked k a h = rw (bit_and-mask k a) (grind arith)

full_mask : (k a b : ℕ) → a < 2 ^ k → b < 2 ^ k → Agrees a b (2 ^ k - 1) ↔ (a ≡ b)
full_mask k a b ha hb =
    (λ e. cc (e, masked k a ha, masked k b hb), λ e. cc (e, masked k a ha, masked k b hb))

-- A packet matches the pattern that `set_fdir` makes exactly when it is UDP, goes to the context's
-- address and goes to the context's port in network order, whoever sent it, for an address and a
-- port within their widths.
pub set_fdir-Matches :
    (ctx : FdirContext) (h : Headers)
    → ctx.ip < 2 ^ 32
    → Matches h (ipv4_rule ctx.id (fdir_filter ctx)).pattern_items
      ↔ ((h.proto ≡ 17) × (h.dst_ip ≡ ctx.ip) × (h.dport ≡ htons ctx.port))
unfolding ipv4_rule fdir_filter
set_fdir-Matches ctx h width = (
  λ m. (
    (full_mask 8 h.proto 17 h.proto_width (omega arith)).0 m.0,
    (full_mask 32 h.dst_ip ctx.ip h.dst_ip_width width).0 m.2,
    (full_mask 16 h.dport (htons ctx.port) h.dport_width (omega arith)).0 (m.3).1,
  ),
  λ e. (
    (full_mask 8 h.proto 17 h.proto_width (omega arith)).1 e.0,
    masked_zero h.src_ip 0,
    (full_mask 32 h.dst_ip ctx.ip h.dst_ip_width width).1 e.1,
    (
      masked_zero h.sport 0,
      (full_mask 16 h.dport (htons ctx.port) h.dport_width (omega arith)).1 e.2,
      tt,
    ),
  ),
)

-- the queue that a rule's actions steer to
abbrev pub SteersTo : ℕ → List FlowAction → Type 0
SteersTo q [] = ⊥
SteersTo q (count_action shared id ∷ actions) = SteersTo q actions
SteersTo q (queue_action index ∷ actions) = index ≡ q
SteersTo q (end_action ∷ actions) = ⊥

-- the result of `set_fdir` for a flow that was made, or null
abbrev pub fdir_result : FdirContext → Ptr → ℕ × FdirContext
fdir_result ctx flow =
    if flow == null then (131, ctx) else (0, record ctx { flows = ctx.flows ++ (flow ∷ []) })

-- `set_fdir` offers the NIC a rule for incoming packets that steers to the context's own receive
-- queue those packets, and only those, that are UDP and go to the context's address and port, if
-- these are within their widths. It keeps the flow that the NIC makes of a rule that it finds valid,
-- and returns `ENOTRECOVERABLE` and keeps nothing if the rule is not valid or no flow is made.
pub set_fdir-Steers :
    (validate : FlowRule → ℤ) (create : FlowRule → Ptr) (ctx : FdirContext) (h : Headers)
    → ctx.ip < 2 ^ 32
    → (let rule = ipv4_rule ctx.id (fdir_filter ctx) in
        (set_fdir validate create ctx
          ≡ fdir_result ctx (elim (validate rule) [ pos zero ↦ create rule | _ ↦ null ]))
        × (rule.ingress ≡ 1)
        × SteersTo ctx.id rule.actions
        × (Matches h rule.pattern_items
            ↔ ((h.proto ≡ 17) × (h.dst_ip ≡ ctx.ip) × (h.dport ≡ htons ctx.port))))
unfolding set_fdir generate_ipv4_flow ipv4_rule
set_fdir-Steers validate create ctx h width = (refl, refl, refl, set_fdir-Matches ctx h width)
