-- ===== src/LrpcContext/Pairing.antt =====
-- What `register_dpt` sets up: a channel each way between a worker and the dispatcher.
use psp.Base.{
  Ptr, null, ◌-◌, ◌^◌, ◌≤◌, ◌<◌, ◌≡◌, ◌≢◌, refl, [], arith, ne→==, sub32, update, update_self, Run,
  ok,
}
use psp.Lrpc.{Memory, lrpc_init_in, lrpc_init_out}
use psp.Lrpc.Linked.{Linked}
use psp.Lrpc.Runs.{IsCleared, fresh_out, fresh_in, fresh-Linked}
use psp.LrpcContext.{Peer, generate_lrpc_buffer, register_dpt}

-- the outcome of a registration: an empty channel each way, and the ids that the peers keep
pub record Registered (a b : Peer) (r : Run (Peer × Peer × Memory)) : Type 0 where
  pub a' : Peer
  pub b' : Peer
  pub mem : Memory
  pub runs : r ≡ ok (a', b', mem)
  pub to_dispatcher :
      Linked 0 0 [] (a'.lrpc_ctx.egress 0) (b'.lrpc_ctx.ingress (a.worker_id - 1)) mem
  pub to_worker : Linked 0 0 [] (b'.lrpc_ctx.egress (a.worker_id - 1)) (a'.lrpc_ctx.ingress 0) mem
  pub peer_of_worker : a'.peer_ids a.n_peers ≡ b.worker_id
  pub peer_of_dispatcher : b'.peer_ids b.n_peers ≡ a.worker_id - 1

-- the memory after the two buffers were made
abbrev pub cleared : (a_tbl a_wb b_tbl b_wb : Ptr) → Memory → Memory
cleared a_tbl a_wb b_tbl b_wb m = record {
  table =
      update (update m.table a_tbl (λ i. record { cmd = 0; payload = 0 })) b_tbl
        (λ i. record { cmd = 0; payload = 0 });
  word = update (update m.word a_wb 0) b_wb 0;
}

module _ (a_tbl a_wb b_tbl b_wb : Ptr) (m : Memory) where
  pub cleared-first :
      a_tbl ≢ b_tbl → a_wb ≢ b_wb → IsCleared (cleared a_tbl a_wb b_tbl b_wb m) a_tbl a_wb
  unfolding update
  cleared-first t w = record { table = λ i. ground arith; word = ground arith }

  pub cleared-second : IsCleared (cleared a_tbl a_wb b_tbl b_wb m) b_tbl b_wb
  unfolding update
  cleared-second = record { table = λ i. ground arith; word = ground arith }

  -- When the four allocations succeed and give different blocks, `register_dpt` joins the worker
  -- and the dispatcher by an empty channel each way, at index 0 of the worker and at the worker's
  -- id less 1 of the dispatcher, and each has the other among its peers.
  pub register_dpt-Registered :
      (a b : Peer)
      → 1 ≤ a.worker_id
      → a.worker_id < 2 ^ 32
      → a_tbl ≢ null
      → a_wb ≢ null
      → b_tbl ≢ null
      → b_wb ≢ null
      → a_tbl ≢ b_tbl
      → a_wb ≢ b_wb
      → Registered a b (register_dpt a_tbl a_wb b_tbl b_wb a b m)
  unfolding register_dpt generate_lrpc_buffer lrpc_init_in lrpc_init_out
  register_dpt-Registered a b lo hi at aw bt bw t w =
      rw (ne→== a_tbl null at, ne→== a_wb null aw, ne→== b_tbl null bt, ne→== b_wb null bw, index)
        (record {
          a' = _;
          b' = _;
          mem = cleared a_tbl a_wb b_tbl b_wb m;
          runs = refl;
          to_dispatcher =
              rw
                (
                  update_self _ 0 (fresh_out b_tbl b_wb),
                  update_self _ (a.worker_id - 1) (fresh_in b_tbl b_wb),
                )
                (fresh-Linked cleared-second);
          to_worker =
              rw
                (
                  update_self _ 0 (fresh_in a_tbl a_wb),
                  update_self _ (a.worker_id - 1) (fresh_out a_tbl a_wb),
                )
                (fresh-Linked (cleared-first t w));
          peer_of_worker = update_self a.peer_ids a.n_peers b.worker_id;
          peer_of_dispatcher = update_self b.peer_ids b.n_peers (a.worker_id - 1);
        })
    where
      index : sub32 a.worker_id 1 ≡ a.worker_id - 1
      index = omega arith
