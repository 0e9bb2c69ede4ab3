-- ===== src/Udp/Transmit.antt =====
-- `send_packets` on the outbound queue of context.cc.
use psp.Base.{Ptr, null}
use psp.Base.{
  ℕ, zero, suc, ◌+◌, ◌%◌, ◌^◌, ◌≤◌, ◌<◌, ◌≡◌, refl, ap, ◌∙◌, true, false, List, [], ◌∷◌, ◌++◌,
  append-nil, append_assoc, length, length-take-drop, take, drop, All, All-drop, arith, ltb, ◌==◌,
  if◌then◌else◌, bit_and, update, add32, ok,
}
use native.Mathlib.Nat.{add-zero}
use psp.Base.Bits.{bit_and-mask}
use psp.Base.Window.{Window, Window-drop}
use psp.Udp.{
  UdpContext, Mbufs, eagain, fill_headers, prepare_outbound_packet, fill_burst, send_packets,
}

-- `q` waits in the outbound queue, `t` packets were sent before, and the counters have not wrapped
pub record Outbound (t : ℕ) (q : List Ptr) (ctx : UdpContext) : Type 0 where
  pub pending : Window 128 ctx.outbound_queue t q
  pub tail : ctx.push_tail ≡ t
  pub head : ctx.push_head ≡ t + length q
  pub no_wrap : t + length q < 2 ^ 32
  pub set : All (λ p. (p == null) ≡ false) q

module _ (flag : ℕ) where
  -- the headers of these packets filled in, in order
  unfoldable pub fill_all : UdpContext → List Ptr → Mbufs → Mbufs
  fill_all ctx [] mem = mem
  fill_all ctx (p ∷ ps) mem = fill_all ctx ps (update mem p (fill_headers flag ctx (mem p)))

  -- only addresses and ports go into the headers
  fill_all-tail :
      (ctx : UdpContext) (k : ℕ) (ps : List Ptr) (mem : Mbufs)
      → fill_all (record ctx { push_tail = k }) ps mem ≡ fill_all ctx ps mem
  unfolding fill_all fill_headers
  fill_all-tail ctx k [] mem = refl
  fill_all-tail ctx k (p ∷ ps) mem =
      fill_all-tail ctx k ps (update mem p (fill_headers flag ctx (mem p)))

  -- the state after `k` packets were taken off the queue
  abbrev pub advanced : UdpContext → ℕ → UdpContext
  advanced ctx k = record ctx { push_tail = k }

  fill_burst_lem :
      (n t : ℕ) (q : List Ptr) (ctx : UdpContext) (mem : Mbufs) (pkts : List Ptr)
      → Outbound t q ctx
      → fill_burst flag n ctx mem pkts
        ≡ ok (advanced ctx (t + length (take n q)), fill_all ctx (take n q) mem, pkts ++ take n q)
  unfolding fill_burst fill_all fill_headers prepare_outbound_packet
  fill_burst_lem zero t q ctx mem pkts o = rw (append-nil, add-zero, ← o.tail)
  fill_burst_lem (suc n) t [] ctx mem pkts o =
      let done : ltb ctx.push_tail ctx.push_head ≡ false = ground (arith, o.tail, o.head) in
      rw (done, append-nil, add-zero, ← o.tail)
  fill_burst_lem (suc n) t (p ∷ q) ctx mem pkts o =
      let more : ltb ctx.push_tail ctx.push_head ≡ true = ground (arith, o.tail, o.head) in
      rw (more, at, o.set.0)
        (fill_burst_lem n (t + 1) q (advanced ctx (add32 ctx.push_tail 1)) _ (pkts ++ (p ∷ [])) rest
          ∙ done)
    where
      rest : Outbound (t + 1) q (advanced ctx (add32 ctx.push_tail 1))
      rest = record {
        pending = o.pending.1;
        tail = omega (arith, o.tail, o.no_wrap);
        head = omega (arith, o.head);
        no_wrap = omega (arith, o.no_wrap);
        set = o.set.1;
      }

      filled : Mbufs
      filled = update mem p (fill_headers flag ctx (mem p))

      ends : UdpContext × Mbufs × List Ptr
      ends = (
        advanced ctx (t + suc (length (take n q))),
        fill_all ctx (take n q) filled,
        pkts ++ p ∷ take n q,
      )

      done :
          ok (
            advanced ctx (t + 1 + length (take n q)),
            fill_all (advanced ctx (add32 ctx.push_tail 1)) (take n q) filled,
            (pkts ++ (p ∷ [])) ++ take n q,
          )
          ≡ ok ends
      done =
          let count : t + 1 + length (take n q) ≡ t + suc (length (take n q)) = omega arith in
          rw (fill_all-tail, append_assoc, count)

      at : ctx.outbound_queue (bit_and ctx.push_tail 127) ≡ p
      at = ap ctx.outbound_queue (omega (arith, bit_and-mask 7 ctx.push_tail, o.tail)) ∙ o.pending.0

  -- the status of `send_packets`, by what the NIC took of the burst
  abbrev pub send_status : (List Ptr → ℕ) → List Ptr → ℕ
  send_status tx_burst pkts = if ltb (tx_burst pkts) (length pkts) then eagain else 0

  sent-Outbound :
      (t k : ℕ) (q : List Ptr) (ctx : UdpContext)
      → Outbound t q ctx
      → Outbound (t + length (take k q)) (drop k q) (advanced ctx (t + length (take k q)))
  sent-Outbound t k q ctx o = record {
    pending = Window-drop 128 ctx.outbound_queue t k q o.pending;
    tail = refl;
    head = omega (arith, o.head, length-take-drop k q);
    no_wrap = omega (arith, o.no_wrap, length-take-drop k q);
    set = All-drop (λ p. (p == null) ≡ false) k q o.set;
  }

  -- While the counters of the outbound queue have not wrapped and no packet that waits is null,
  -- `send_packets` hands the NIC the first eight packets that wait, or all if they are fewer, in
  -- order and with their headers filled in; it takes just these off the queue, and returns
  -- `EAGAIN` exactly when the NIC does not take the whole burst.
  pub send_packets-Outbound :
      (tx_burst : List Ptr → ℕ) (t : ℕ) (q : List Ptr) (ctx : UdpContext) (mem : Mbufs)
      → Outbound t q ctx
      → (send_packets flag tx_burst ctx mem
          ≡ ok (
            send_status tx_burst (take 8 q),
            advanced ctx (t + length (take 8 q)),
            fill_all ctx (take 8 q) mem,
            take 8 q,
          ))
        × Outbound (t + length (take 8 q)) (drop 8 q) (advanced ctx (t + length (take 8 q)))
  unfolding send_packets
  send_packets-Outbound tx_burst t q ctx mem o =
      (rw (fill_burst_lem 8 t q ctx mem [] o) (ground arith), sent-Outbound t 8 q ctx o)

  -- Once the head counter has wrapped and the tail has not, `send_packets` sends nothing and
  -- reports success: it changes nothing, whatever waits in the queue.
  pub send_packets-wrapped :
      (tx_burst : List Ptr → ℕ) (ctx : UdpContext) (mem : Mbufs) (t n : ℕ)
      → n ≤ 128
      → ctx.push_tail ≡ t
      → t < 2 ^ 32
      → 2 ^ 32 ≤ t + n
      → ctx.push_head ≡ (t + n) % 2 ^ 32
      → send_packets flag tx_burst ctx mem ≡ ok (0, ctx, mem, [])
  unfolding send_packets fill_burst
  send_packets-wrapped tx_burst ctx mem t n few tail below wrap head =
      let over : ltb ctx.push_tail ctx.push_head ≡ false = ground arith in rw over
