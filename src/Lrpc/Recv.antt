-- ===== src/Lrpc/Recv.antt =====
-- `lrpc_recv` and `lrpc_empty` on a linked channel: they see exactly the messages in flight.
use native.Mathlib.Decide.{dec_lt}
use psp.Base.{
  ℕ, ◌+◌, ◌-◌, ◌*◌, ◌/◌, ◌%◌, ◌^◌, bit_and, ◌≡◌, refl, ap, Bool, true, false, Option, none, some,
  List, [], ◌∷◌, length, arith, ◌==◌, update_self,
}
use psp.Lrpc.{Memory, ChanOut, ChanIn, done_parity, slot, parity, next_msg, lrpc_recv, lrpc_empty}
use psp.Lrpc.Queue
use psp.Lrpc.Queue.{Entry}
use psp.Lrpc.Slots.{turn, slot_lem, parity_lem, parity_bit, cmd_bits}
use psp.Lrpc.Linked.{IsOld, Linked}

module _ {h s : ℕ} {q : List Entry} {out : ChanOut} {inn : ChanIn} {m : Memory}
    (l : Linked h s q out inn m) where
  slot_here : slot inn.recv_head inn.size ≡ h % 4096
  slot_here = rw (l.received, l.in_size) (slot_lem h)

  next_msg_lem : next_msg inn m ≡ m.table inn.tbl (h % 4096)
  next_msg_lem = ap (m.table inn.tbl) slot_here

  parity_here : parity inn.recv_head inn.size ≡ (1 - turn h) * 2 ^ 63
  parity_here = rw (l.received, l.in_size) (parity_lem h)

-- what the receiver's test of the parity bit says
abbrev ready : ChanIn → Memory → Bool
ready inn m = bit_and (next_msg inn m).cmd done_parity == parity inn.recv_head inn.size

module _ {h s : ℕ} {out : ChanOut} {inn : ChanIn} {m : Memory} where
  ready-nil : Linked h s [] out inn m → ready inn m ≡ false
  ready-nil l = rw (next_msg_lem l, parity_here l, parity_bit) (ground (arith, l.old h))

  ready-cons : (e : Entry) (q : List Entry) → Linked h s (e ∷ q) out inn m → ready inn m ≡ true
  ready-cons e q l =
      rw (next_msg_lem l, parity_here l, parity_bit)
        (ground (arith, l.messages.0.cmd, l.messages.0.small))

  -- The oldest message is the one received, and the channel is linked without it.
  recv-cons :
      (e : Entry) (q : List Entry)
      → Linked h s (e ∷ q) out inn m
      → let (r, inn', m') = lrpc_recv inn m in (r ≡ some e) × Linked (h + 1) s q out inn' m'
  unfolding lrpc_recv
  recv-cons e q l = rw (ready-cons e q l) (
    rw (next_msg_lem l, cmd_bits)
        (ground (arith, l.messages.0.cmd, l.messages.0.small, l.messages.0.payload)),
    record {
      out_size = l.out_size;
      in_size = l.in_size;
      same_tbl = l.same_tbl;
      same_wb = l.same_wb;
      sent = omega (arith, l.sent);
      seen = l.seen;
      received = omega (arith, l.received);
      written_back = rw update_self (omega (arith, l.received));
      seen_le = omega (arith, l.seen_le);
      fits = omega (arith, l.fits);
      messages = l.messages.1;
      old = λ i lo hi. elim (dec_lt i (h + 4096)) [
        | yes before ↦ l.old i (omega arith) before
        | no after ↦ old_next i (omega arith) (omega (arith, l.messages.0.cmd, l.messages.0.small))
      ];
    },
  )
    where
      old_next :
          (i : ℕ)
          → i ≡ h + 4096
          → (m.table inn.tbl (h % 4096)).cmd / 2 ^ 63 ≡ 1 - turn h
          → IsOld (m.table inn.tbl (i % 4096)) i
      old_next i at gone =
          let same : i % 4096 ≡ h % 4096 = omega arith in rw same (omega (arith, gone))

  -- With nothing in flight the receiver reports an empty channel and changes nothing.
  recv-nil : Linked h s [] out inn m → lrpc_recv inn m ≡ (none, inn, m)
  unfolding lrpc_recv
  recv-nil l = rw (ready-nil l)

-- the outcome of a receive: what the queue does, on a channel that is linked again
pub record Received (s : ℕ) (q : List Entry) (out : ChanOut) (r : Option Entry × ChanIn × Memory)
    : Type 0 where
  pub count : ℕ
  pub result : r.0 ≡ (Queue.recv q).0
  pub linked : Linked count s (Queue.recv q).1 out r.1 r.2

-- On a linked channel `lrpc_recv` returns the oldest message in flight, or nothing if there is
-- none, and leaves the channel linked.
pub lrpc_recv-Received :
    {h s : ℕ} {out : ChanOut} {inn : ChanIn} {m : Memory} (q : List Entry)
    → Linked h s q out inn m
    → Received s q out (lrpc_recv inn m)
unfolding Queue.recv
lrpc_recv-Received {h} [] l = rw (recv-nil l) (record { count = h; result = refl; linked = l })
lrpc_recv-Received {h} (e ∷ q) l =
    let done = recv-cons e q l in record { count = h + 1; result = done.0; linked = done.1 }

-- `lrpc_empty` is true exactly when nothing is in flight.
pub lrpc_empty_lem :
    {h s : ℕ} {out : ChanOut} {inn : ChanIn} {m : Memory} (q : List Entry)
    → Linked h s q out inn m
    → lrpc_empty inn m ≡ (length q == 0)
unfolding lrpc_empty
lrpc_empty_lem [] l = rw (ready-nil l)
lrpc_empty_lem (e ∷ q) l = rw (ready-cons e q l) (ground arith)
