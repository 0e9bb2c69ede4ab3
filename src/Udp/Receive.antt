-- ===== src/Udp/Receive.antt =====
-- `recv_packets` on the inbound queue of context.cc: what it stores, and that it never overruns.
use psp.Base.{Ptr}
use psp.Base.{
  ℕ, suc, ◌+◌, ◌%◌, ◌^◌, ◌≤◌, ◌<◌, ◌≡◌, refl, false, List, [], ◌∷◌, ◌++◌, append-nil, append_assoc,
  length, length-append, arith, ltb, ltb→lt, Bool-cases, inl, inr, ◌==◌, if◌then◌else◌, bit_and,
  sub32,
}
use psp.Base.Bits.{bit_and-mask}
use psp.Base.Window.{Window, Window-push}
use psp.Udp.{UdpContext, eagain, parse_packet, parse_packets, recv_packets}

-- `q` waits in the inbound queue, and `t` packets were taken from it before
pub record Inbound (t : ℕ) (q : List Ptr) (ctx : UdpContext) : Type 0 where
  pub pending : Window 128 ctx.inbound_queue t q
  pub tail : ctx.pop_tail ≡ t % 2 ^ 32
  pub head : ctx.pop_head ≡ (t + length q) % 2 ^ 32
  pub fits : length q ≤ 128

module _ {t : ℕ} {ctx : UdpContext} where
  pub parse_packet-Inbound :
      (pkt : Ptr) (q : List Ptr)
      → Inbound t q ctx
      → length q < 128
      → Inbound t (q ++ (pkt ∷ [])) (parse_packet pkt ctx)
  unfolding parse_packet
  parse_packet-Inbound pkt q i room = record {
    pending = rw place (Window-push 128 ctx.inbound_queue pkt t q room i.pending);
    tail = i.tail;
    head = omega (arith, i.head, length-append q (pkt ∷ []));
    fits = omega (arith, length-append q (pkt ∷ []));
  }
    where
      place : bit_and ctx.pop_head 127 ≡ (t + length q) % 128
      place = omega (arith, bit_and-mask 7 ctx.pop_head, i.head)

parse_packets-Inbound :
    {t : ℕ} {ctx : UdpContext} (pkts q : List Ptr)
    → Inbound t q ctx
    → length q + length pkts ≤ 128
    → Inbound t (q ++ pkts) (parse_packets pkts ctx)
unfolding parse_packets
parse_packets-Inbound [] q i room = rw append-nil i
parse_packets-Inbound {t} {ctx} (pkt ∷ pkts) q i room = rw (append_assoc q (pkt ∷ []) pkts) at (
    parse_packets-Inbound {t = t} {ctx = parse_packet pkt ctx} pkts (q ++ (pkt ∷ []))
      (parse_packet-Inbound pkt q i (omega arith)) (omega (arith, length-append q (pkt ∷ []))))

pub waiting :
    {t : ℕ} {ctx : UdpContext} (q : List Ptr)
    → Inbound t q ctx
    → sub32 ctx.pop_head ctx.pop_tail ≡ length q
waiting q i = omega (arith, i.head, i.tail, i.fits)

some_packets : (pkts : List Ptr) → (suc (length pkts) == 0) ≡ false
some_packets pkts = ground arith

-- the queue that a burst leaves, and the status that is returned
abbrev pub received : List Ptr → List Ptr → List Ptr
received q pkts = if ltb (length q) 120 then q ++ pkts else q

abbrev pub recv_status : List Ptr → List Ptr → ℕ
recv_status q pkts = if ltb (length q) 120 then if length pkts == 0 then eagain else 0 else 0

-- With a burst of at most 8 packets, `recv_packets` appends all of it in order while fewer than 120
-- packets wait, and leaves the queue as it is otherwise; it overwrites no packet that waits, and
-- it returns `EAGAIN` exactly when it asked the NIC and got nothing.
pub recv_packets-Inbound :
    {t : ℕ} {ctx : UdpContext} (pkts q : List Ptr)
    → Inbound t q ctx
    → length pkts ≤ 8
    → Inbound t (received q pkts) (recv_packets pkts ctx).1
      × ((recv_packets pkts ctx).0 ≡ recv_status q pkts)
unfolding recv_packets
recv_packets-Inbound [] q i burst = elim (Bool-cases (ltb (length q) 120)) [
  | inl room ↦ rw (waiting q i, room) (rw append-nil i, refl)
  | inr full ↦ rw (waiting q i, full) (i, refl)
]
recv_packets-Inbound (pkt ∷ pkts) q i burst = elim (Bool-cases (ltb (length q) 120)) [
  | inl room ↦
      rw (waiting q i, room, some_packets pkts)
        (parse_packets-Inbound (pkt ∷ pkts) q i (omega (arith, ltb→lt (length q) 120 room)), refl)
  | inr full ↦ rw (waiting q i, full) (i, refl)
]
