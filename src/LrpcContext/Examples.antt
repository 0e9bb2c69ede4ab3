-- ===== src/LrpcContext/Examples.antt =====
-- A worker's context whose channels are those with one message in flight, and two peers.
use psp.Base.{ℕ}
use psp.Lrpc.Runs.{fresh_in}
use psp.Lrpc.Examples.{one_out}
use psp.LrpcContext.{LrpcContext, Peer}

abbrev one_channel : LrpcContext
one_channel = record { ingress = λ k. fresh_in 16 32; egress = λ k. one_out }

abbrev peer : ℕ → Peer
peer id = record {
  worker_id = id;
  dpt_id = 0;
  n_peers = 0;
  peer_ids = λ k. 0;
  lrpc_ctx = one_channel;
}
