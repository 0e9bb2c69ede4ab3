-- ===== src/LrpcContext.antt =====
-- src/c++/libos/io/lrpc/context.cc and include/psp/libos/io/lrpc/context.hh: the channels of a worker
-- to its peers; and `Worker::register_dpt` (src/c++/libos/common/Worker.cc), which pairs the channels
-- of a worker and of the dispatcher.
mod Examples
pub mod Pairing
pub mod Transfer
use psp.Base.{
  ℕ, Ptr, null, ◌+◌, ◌-◌, Bool, true, false, Option, none, some, ◌==◌, if◌then◌else◌, update, add64,
  sub32, Run, ok, fault, ◌>>=◌,
}
use psp.Lrpc.{Msg, Memory, ChanOut, ChanIn, lrpc_send, lrpc_recv, lrpc_init_in, lrpc_init_out}
use psp.Lrpc.Queue.{lrpc_q_len}

-- `EAGAIN`, and the command `LRPC_TX` of every message
abbrev pub try_again : ℕ
try_again = 11

abbrev pub lrpc_tx : ℕ
lrpc_tx = 0

-- `LrpcContext`
pub record LrpcContext : Type 0 where
  pub ingress : ℕ → ChanIn
  pub egress : ℕ → ChanOut

-- `generate_lrpc_buffer`, with what the two calls of `malloc` return; after a failed one `memset`
-- writes through the null pointer
unfoldable pub generate_lrpc_buffer : (buf wb : Ptr) → Memory → Run Memory
generate_lrpc_buffer buf wb m =
    if buf == null
    then fault
    else if wb == null
    then fault
    else ok (record {
      table = update m.table buf (λ i. record { cmd = 0; payload = 0 });
      word = update m.word wb 0;
    })

-- `pop`; `none` is `EAGAIN`
unfoldable pub pop : ℕ → LrpcContext → Memory → Option ℕ × LrpcContext × Memory
pop peer_id ctx m =
    let (r, chan, m') = lrpc_recv (ctx.ingress peer_id) m in
    let ctx' : LrpcContext = record ctx { ingress = update ctx.ingress peer_id chan } in
    elim r [ none ↦ (none, ctx', m') | some msg ↦ (some msg.1, ctx', m') ]

-- `push`; the result is the status
unfoldable pub push : ℕ → ℕ → LrpcContext → Memory → Run (ℕ × LrpcContext × Memory)
push payload peer_id ctx m = do
  (sent, chan, m') ← lrpc_send (ctx.egress peer_id) lrpc_tx payload m
  ok (if sent then 0 else try_again, record ctx { egress = update ctx.egress peer_id chan }, m')

-- the parts of a `Worker` that `register_dpt` uses; its ids are `int`s, in two's complement
pub record Peer : Type 0 where
  pub worker_id : ℕ
  pub dpt_id : ℕ
  pub n_peers : ℕ
  pub peer_ids : ℕ → ℕ
  pub lrpc_ctx : LrpcContext

-- a channel after an initialiser, which leaves it alone when it fails
abbrev pub or_else {ℓ} : {A : Type ℓ} → Option A → A → A
or_else none x = x
or_else (some y) x = y

abbrev pub set_ingress : ℕ → Ptr → Ptr → LrpcContext → LrpcContext
set_ingress k tbl wb ctx = record ctx {
  ingress = update ctx.ingress k (or_else (lrpc_init_in tbl lrpc_q_len wb) (ctx.ingress k));
}

abbrev pub set_egress : ℕ → Ptr → Ptr → LrpcContext → LrpcContext
set_egress k tbl wb ctx = record ctx {
  egress = update ctx.egress k (or_else (lrpc_init_out tbl lrpc_q_len wb) (ctx.egress k));
}

-- `register_dpt` of worker `a` with dispatcher `b`, and what the four calls of `malloc` return
unfoldable pub register_dpt :
    (a_tbl a_wb b_tbl b_wb : Ptr) → Peer → Peer → Memory → Run (Peer × Peer × Memory)
register_dpt a_tbl a_wb b_tbl b_wb a b m = do
  m1 ← generate_lrpc_buffer a_tbl a_wb m
  m2 ← generate_lrpc_buffer b_tbl b_wb m1
  let k = sub32 a.worker_id 1
  ok (
    record a {
      dpt_id = b.worker_id;
      lrpc_ctx = set_egress 0 b_tbl b_wb (set_ingress 0 a_tbl a_wb a.lrpc_ctx);
      peer_ids = update a.peer_ids a.n_peers b.worker_id;
      n_peers = add64 a.n_peers 1;
    },
    record b {
      lrpc_ctx = set_egress k a_tbl a_wb (set_ingress k b_tbl b_wb b.lrpc_ctx);
      peer_ids = update b.peer_ids b.n_peers k;
      n_peers = add64 b.n_peers 1;
    },
    m2,
  )
