-- ===== src/NetWorker/Batch.antt =====
-- The loop of `work`: which packets become tasks, and that it ends while contexts are left.
use psp.Base.{
  ℕ, zero, suc, Ptr, ◌+◌, ◌^◌, ◌≤◌, ◌<◌, ◌≡◌, refl, sym, ap, ◌∙◌, true, false, ◌&&◌, Option, none,
  some, List, [], ◌∷◌, ◌++◌, append-nil, append_assoc, length, length-append, take, drop, All,
  arith, ltb, lt→ltb, bit_and, Run, ok, stuck,
}
use native.Mathlib.Nat.{add-zero}
use psp.Base.Bits.{bit_and-mask}
use psp.Base.Window.{Window}
use psp.TaskQueue.{Item}
use psp.TaskQueue.Chain.{Represents}
use psp.TaskQueue.Fifo
use psp.TaskQueue.Refine.{tskq_enqueue_tail-Represents}
use psp.Context.{Contexts, context_alloc}
use psp.Context.Alloc.{IsLive, context_alloc-IsLive, context_alloc-exhausted}
use psp.Mempool.{mempool_alloc, mempool_free}
use psp.NetWorker.{Net, packet_item, enqueue_packet, receive_batch}

-- `q` waits in the inbound queue whose counters have not wrapped, the contexts in use are `live`,
-- and the dispatcher's queue holds `items`
pub record IsReady (capacity t : ℕ) (q live : List Ptr) (items : List Item) (w : Net) : Type 0 where
  pub pending : Window 128 w.udp.inbound_queue t q
  pub tail : w.udp.pop_tail ≡ t
  pub head : w.udp.pop_head ≡ t + length q
  pub no_wrap : t + length q < 2 ^ 32
  pub contexts : IsLive w.shared.contexts live
  pub queue : Represents w.shared.tskq w.shared.tasks capacity items

-- contexts, stacks and tasks are left for `n` more packets
pub record HasRoom (capacity n : ℕ) (live : List Ptr) (items : List Item) (w : Net) : Type 0 where
  pub contexts : length live + n ≤ w.shared.contexts.context_pool.capacity
  pub stacks : length live + n ≤ w.shared.contexts.stack_pool.capacity
  pub tasks : length items + n ≤ capacity

-- the contexts of new tasks, before those in use
abbrev pub onto : List Item → List Ptr → List Ptr
onto [] live = live
onto (e ∷ new) live = onto new (e.runnable ∷ live)

abbrev pub mbufs : List Item → List Ptr
mbufs [] = []
mbufs (e ∷ new) = e.mbuf ∷ mbufs new

-- a task for a packet that arrived at this time
abbrev pub IsPacketItem : ℕ → Item → Type 0
IsPacketItem tsc e = e ≡ packet_item e.runnable e.mbuf tsc

-- the outcome of the loop, with `m` packets to go after `b`
pub record Batched (capacity tsc b m t : ℕ) (q live : List Ptr) (items : List Item)
    (r : Run (ℕ × Net)) : Type 0 where
  pub net : Net
  pub new : List Item
  pub runs : r ≡ ok (b + length (take m q), net)
  pub packets : mbufs new ≡ take m q
  pub kind : All (IsPacketItem tsc) new
  pub ready : IsReady capacity (t + length (take m q)) (drop m q) (onto new live) (items ++ new) net

capacity-context_alloc :
    (cs : Contexts)
    → ((context_alloc cs).1.context_pool.capacity ≡ cs.context_pool.capacity)
      × ((context_alloc cs).1.stack_pool.capacity ≡ cs.stack_pool.capacity)
unfolding context_alloc mempool_alloc mempool_free
capacity-context_alloc cs = ground arith

-- the state after one packet became a task with context `c`
abbrev after_packet : ℕ → Ptr → Contexts → Net → Net
after_packet tsc c cs w =
    enqueue_packet tsc c (record w { shared = record w.shared { contexts = cs } })

module _ {capacity t : ℕ} {p : Ptr} {q live : List Ptr} {items : List Item} {w : Net} (tsc : ℕ)
    (r : IsReady capacity t (p ∷ q) live items w) where
  first_packet : w.udp.inbound_queue (bit_and w.udp.pop_tail 127) ≡ p
  first_packet =
      ap w.udp.inbound_queue (omega (arith, bit_and-mask 7 w.udp.pop_tail, r.tail)) ∙ r.pending.0

  IsReady-packet :
      (c : Ptr) (cs : Contexts)
      → IsLive cs (c ∷ live)
      → length items < capacity
      → IsReady capacity
          (t + 1)
          q
          (c ∷ live)
          (items ++ (packet_item c p tsc ∷ []))
          (after_packet tsc c cs w)
  unfolding enqueue_packet Fifo.enqueue
  IsReady-packet c cs l room = rw first_packet (record {
    pending = r.pending.1;
    tail = omega (arith, r.tail, r.no_wrap);
    head = omega (arith, r.head);
    no_wrap = omega (arith, r.no_wrap);
    contexts = l;
    queue =
        rw (lt→ltb (length items) capacity room) at
          (tskq_enqueue_tail-Represents (packet_item c p tsc) capacity items r.queue);
  })

-- the loop ends when no packet waits, or the batch is complete
batch-end :
    {capacity t : ℕ} {q live : List Ptr} {items : List Item} {w : Net} (tsc b m k : ℕ)
    → IsReady capacity t q live items w
    → take m q ≡ []
    → drop m q ≡ q
    → (ltb w.udp.pop_tail w.udp.pop_head && ltb b 8) ≡ false
    → Batched capacity tsc b m t q live items (receive_batch (suc k) tsc b w)
unfolding receive_batch
batch-end {items} {w} tsc b m k r none_taken all_left over = rw over (record {
  net = w;
  new = [];
  runs = rw (none_taken, add-zero);
  packets = sym none_taken;
  kind = tt;
  ready = rw (none_taken, all_left, append-nil, add-zero) r;
})

-- what a round of the loop does by what `context_alloc` returned
abbrev go_on : ℕ → ℕ → ℕ → Net → Option Ptr × Contexts → Run (ℕ × Net)
go_on k tsc b w r = elim r.0 [
  | none ↦ receive_batch k tsc b (record w { shared = record w.shared { contexts = r.1 } })
  | some c ↦ receive_batch k tsc (b + 1) (after_packet tsc c r.1 w)
]

round_lem :
    (k tsc b : ℕ) (w : Net) (r : Option Ptr × Contexts)
    → (ltb w.udp.pop_tail w.udp.pop_head && ltb b 8) ≡ true
    → context_alloc w.shared.contexts ≡ r
    → receive_batch (suc k) tsc b w ≡ go_on k tsc b w r
unfolding receive_batch
round_lem k tsc b w r more got = rw more (ap (go_on k tsc b w) got)

module _ {capacity : ℕ} {live : List Ptr} {items : List Item} {w : Net} (tsc : ℕ) (p c : Ptr)
    (cs : Contexts) (got : context_alloc w.shared.contexts ≡ (some c, cs)) where
  HasRoom-packet :
      (n : ℕ)
      → HasRoom capacity (suc n) live items w
      → HasRoom capacity n
          (c ∷ live)
          (items ++ (packet_item c p tsc ∷ []))
          (after_packet tsc c cs w)
  unfolding enqueue_packet
  HasRoom-packet n room =
      let same = rw got at (capacity-context_alloc w.shared.contexts) in
      record {
        contexts = omega (arith, room.contexts, same.0);
        stacks = omega (arith, room.stacks, same.1);
        tasks = omega (arith, room.tasks, length-append items (packet_item c p tsc ∷ []));
      }

  -- a packet taken, and then the rest of the batch
  batch-packet :
      (t : ℕ) (q : List Ptr) (b m k : ℕ)
      → b < 8
      → IsReady capacity t (p ∷ q) live items w
      → Batched capacity tsc
          (b + 1)
          m
          (t + 1)
          q
          (c ∷ live)
          (items ++ (packet_item c p tsc ∷ []))
          (receive_batch k tsc (b + 1) (after_packet tsc c cs w))
      → Batched capacity tsc b (suc m) t (p ∷ q) live items (receive_batch (suc k) tsc b w)
  batch-packet t q b m k few r rest =
      let more : (ltb w.udp.pop_tail w.udp.pop_head && ltb b 8) ≡ true =
        ground (arith, r.tail, r.head) in
      let count : b + 1 + length (take m q) ≡ b + suc (length (take m q)) = omega arith in
      let moved : t + 1 + length (take m q) ≡ t + suc (length (take m q)) = omega arith in
      rw (round_lem k tsc b w (some c, cs) more got) (record {
        net = rest.net;
        new = packet_item c p tsc ∷ rest.new;
        runs = rw count at rest.runs;
        packets = ap (λ ps. p ∷ ps) rest.packets;
        kind = (refl, rest.kind);
        ready = rw (moved, append_assoc items (packet_item c p tsc ∷ []) rest.new) at rest.ready;
      })

batch_lem :
    {capacity : ℕ} (tsc k : ℕ) {t : ℕ} {live : List Ptr} {items : List Item} {w : Net} (b m : ℕ)
    (q : List Ptr)
    → b + m ≡ 8
    → length (take m q) < k
    → IsReady capacity t q live items w
    → HasRoom capacity (length (take m q)) live items w
    → Batched capacity tsc b m t q live items (receive_batch k tsc b w)
batch_lem tsc zero b m q eight enough r room = absurd (omega arith)
batch_lem tsc (suc k) {w} b zero q eight enough r room =
    batch-end tsc b zero k r refl refl (ground arith)
batch_lem tsc (suc k) {w} b (suc m) [] eight enough r room =
    batch-end tsc b (suc m) k r refl refl (ground (arith, r.tail, r.head))
batch_lem tsc (suc k) {t} {live} {items} {w} b (suc m) (p ∷ q) eight enough r room =
    let (c, cs, got, l) =
      context_alloc-IsLive live r.contexts (omega (arith, room.contexts, r.contexts.context_count))
        (omega (arith, room.stacks, r.contexts.stack_count)) in
    batch-packet tsc p c cs got t q b m k (omega arith) r (
      batch_lem tsc k {t = t + 1} (b + 1) m q (omega arith) (omega arith)
        (IsReady-packet tsc r c cs l (omega (arith, room.tasks)))
        (HasRoom-packet tsc p c cs got (length (take m q)) room))

-- While the counters of the inbound queue have not wrapped, with contexts, stacks and tasks left for
-- the packets, the loop of `work` turns the first eight packets
-- that wait, or all if they are fewer, into tasks: they go behind the queue's items in the order of
-- arrival, each with a context of its own, and leave the inbound queue. Nine rounds are enough.
pub receive_batch-Batched :
    {capacity t : ℕ} {live : List Ptr} {items : List Item} {w : Net} (tsc : ℕ) (q : List Ptr)
    → IsReady capacity t q live items w
    → HasRoom capacity (length (take 8 q)) live items w
    → Batched capacity tsc 0 8 t q live items (receive_batch 9 tsc 0 w)
receive_batch-Batched tsc q r room = batch_lem tsc 9 0 8 q refl (short 8 q) r room
  where
    short : (n : ℕ) (xs : List Ptr) → length (take n xs) < suc n
    short zero xs = omega arith
    short (suc n) [] = omega arith
    short (suc n) (x ∷ xs) = omega (arith, short n xs)

-- When a packet waits in the inbound queue, whose counters have not wrapped, and no context is left,
-- the loop of `work` goes round without end: however
-- many rounds it is given, it uses them up.
pub receive_batch-stuck :
    {capacity t : ℕ} {p : Ptr} {q live : List Ptr} {items : List Item} {w : Net} (tsc k b : ℕ)
    → b < 8
    → IsReady capacity t (p ∷ q) live items w
    → w.shared.contexts.context_pool.allocated ≡ w.shared.contexts.context_pool.capacity
    → receive_batch k tsc b w ≡ stuck
unfolding receive_batch
receive_batch-stuck tsc zero b few r full = refl
receive_batch-stuck {live} {w} tsc (suc k) b few r full =
    let more : (ltb w.udp.pop_tail w.udp.pop_head && ltb b 8) ≡ true =
      ground (arith, r.tail, r.head) in
    round_lem k tsc b w (none, w.shared.contexts) more
      (context_alloc-exhausted live r.contexts full)
    ∙ receive_batch-stuck tsc k b few r full
