-- ===== src/Lrpc/Runs.antt =====
-- Any interleaving of the two ends of a channel, from its initialisation on.
use psp.Base.{Ptr}
use psp.Base.{ℕ, ◌%◌, ◌^◌, ◌<◌, ◌≡◌, refl, Bool, Option, some, List, [], ◌∷◌, arith, Run, ok, ◌>>=◌}
use psp.Lrpc.{Memory, ChanOut, ChanIn, lrpc_send, lrpc_recv, lrpc_init_out, lrpc_init_in}
use psp.Lrpc.Queue
use psp.Lrpc.Queue.{Entry, lrpc_q_len}
use psp.Lrpc.Linked.{Linked}
use psp.Lrpc.Send.{lrpc_send-Sent}
use psp.Lrpc.Recv.{lrpc_recv-Received}

-- one call by either end
pub data Op : Type 0 where
  send : Entry → Op
  recv : Op

-- what the caller sees of it
pub data Reply : Type 0 where
  sent : Bool → Reply
  got : Option Entry → Reply

-- the calls in the order in which they take effect
unfoldable pub run : List Op → ChanOut → ChanIn → Memory → Run (List Reply)
run [] out inn m = ok []
run (send (c, p) ∷ ops) out inn m = do
  (b, out', m') ← lrpc_send out c p m
  rs ← run ops out' inn m'
  ok (sent b ∷ rs)
run (recv ∷ ops) out inn m =
    let (r, inn', m') = lrpc_recv inn m in do rs ← run ops out inn' m'; ok (got r ∷ rs)

-- the same calls on the bounded FIFO
unfoldable pub run_queue : List Op → List Entry → List Reply
run_queue [] q = []
run_queue (send e ∷ ops) q = let (b, q') = Queue.send q e in sent b ∷ run_queue ops q'
run_queue (recv ∷ ops) q = let (r, q') = Queue.recv q in got r ∷ run_queue ops q'

-- every command leaves the parity bit alone
abbrev pub CmdsFit : List Op → Type 0
CmdsFit [] = Unit
CmdsFit (send (c, p) ∷ ops) = (c < 2 ^ 63) × CmdsFit ops
CmdsFit (recv ∷ ops) = CmdsFit ops

-- No interleaving of sends and receives tells a linked channel from a FIFO of 4096 messages: no
-- message is lost, repeated, reordered or altered, and a send is refused only by a full queue. The
-- commands that are sent leave bit 63 clear.
pub run_refines :
    (ops : List Op) {h s : ℕ} {q : List Entry} {out : ChanOut} {inn : ChanIn} {m : Memory}
    → Linked h s q out inn m
    → CmdsFit ops
    → run ops out inn m ≡ ok (run_queue ops q)
unfolding run run_queue
run_refines [] l fit = refl
run_refines (send (c, p) ∷ ops) l fit =
    let done = lrpc_send-Sent c p l fit.0 in rw (done.runs, run_refines ops done.linked fit.1)
run_refines (recv ∷ ops) {q} l fit =
    let done = lrpc_recv-Received q l in rw (run_refines ops done.linked fit, done.result)

-- a table and a write-back word that `memset` has cleared
pub record IsCleared (m : Memory) (tbl wb : Ptr) : Type 0 where
  pub table : (i : ℕ) → m.table tbl i ≡ record { cmd = 0; payload = 0 }
  pub word : m.word wb ≡ 0

abbrev pub fresh_out : Ptr → Ptr → ChanOut
fresh_out tbl wb = record {
  tbl = tbl;
  recv_head_wb = wb;
  send_head = 0;
  send_tail = 0;
  size = lrpc_q_len;
}

abbrev pub fresh_in : Ptr → Ptr → ChanIn
fresh_in tbl wb = record { tbl = tbl; recv_head_wb = wb; recv_head = 0; size = lrpc_q_len }

pub fresh-Linked :
    {m : Memory} {tbl wb : Ptr}
    → IsCleared m tbl wb
    → Linked 0 0 [] (fresh_out tbl wb) (fresh_in tbl wb) m
fresh-Linked c = record {
  out_size = refl;
  in_size = refl;
  same_tbl = refl;
  same_wb = refl;
  sent = refl;
  seen = refl;
  received = refl;
  written_back = c.word;
  seen_le = omega arith;
  fits = omega arith;
  messages = tt;
  old = λ i lo hi. rw (c.table (i % 4096)) (omega arith);
}

-- The two ends that `lrpc_init_out` and `lrpc_init_in` set up over one cleared buffer of 4096
-- messages form an empty channel.
pub lrpc_init-Linked :
    {m : Memory} {tbl wb : Ptr}
    → IsCleared m tbl wb
    → (lrpc_init_out tbl lrpc_q_len wb ≡ some (fresh_out tbl wb))
      × (lrpc_init_in tbl lrpc_q_len wb ≡ some (fresh_in tbl wb))
      × Linked 0 0 [] (fresh_out tbl wb) (fresh_in tbl wb) m
unfolding lrpc_init_out lrpc_init_in
lrpc_init-Linked c = (refl, refl, fresh-Linked c)
