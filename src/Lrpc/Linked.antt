-- ===== src/Lrpc/Linked.antt =====
-- When the two ends of a channel agree: the messages in flight, and where each of them lies.
use psp.Base.{ℕ, ◌+◌, ◌-◌, ◌*◌, ◌/◌, ◌%◌, ◌^◌, ◌≤◌, ◌<◌, ◌≡◌, List, [], ◌∷◌, length}
use psp.Lrpc.{Msg, Memory, ChanOut, ChanIn}
use psp.Lrpc.Queue.{Entry}
use psp.Lrpc.Slots.{turn}

-- message `e`, stored at position `i`
pub record Holds (msg : Msg) (i : ℕ) (e : Entry) : Type 0 where
  pub cmd : msg.cmd ≡ e.0 + (1 - turn i) * 2 ^ 63
  pub payload : msg.payload ≡ e.1
  pub small : e.0 < 2 ^ 63

-- a slot that has no message for position `i`: its parity bit is that of the lap before
abbrev pub IsOld : Msg → ℕ → Type 0
IsOld msg i = msg.cmd / 2 ^ 63 ≡ turn i

abbrev pub HoldsAll : (ℕ → Msg) → ℕ → List Entry → Type 0
HoldsAll t h [] = Unit
HoldsAll t h (e ∷ q) = Holds (t (h % 4096)) h e × HoldsAll t (h + 1) q

-- `q` is in flight, `h` messages were received before, and the sender has seen `s` of them gone.
-- The counters of the code are these numbers modulo `2 ^ 32`.
pub record Linked (h s : ℕ) (q : List Entry) (out : ChanOut) (inn : ChanIn) (m : Memory)
    : Type 0 where
  pub out_size : out.size ≡ 4096
  pub in_size : inn.size ≡ 4096
  pub same_tbl : out.tbl ≡ inn.tbl
  pub same_wb : out.recv_head_wb ≡ inn.recv_head_wb
  pub sent : out.send_head ≡ (h + length q) % 2 ^ 32
  pub seen : out.send_tail ≡ s % 2 ^ 32
  pub received : inn.recv_head ≡ h % 2 ^ 32
  pub written_back : m.word inn.recv_head_wb ≡ h % 2 ^ 32
  pub seen_le : s ≤ h
  pub fits : h + length q ≤ s + 4096
  pub messages : HoldsAll (m.table inn.tbl) h q
  pub old : (i : ℕ) → h + length q ≤ i → i < h + 4096 → IsOld (m.table inn.tbl (i % 4096)) i
