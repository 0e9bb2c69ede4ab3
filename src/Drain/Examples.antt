-- ===== src/Drain/Examples.antt =====
-- A ring with one request, and two free peers with a channel each.
use psp.Base.{◌≡◌, refl, [], ◌∷◌, arith, ok}
use psp.Lrpc.{Memory}
use psp.Lrpc.Runs.{IsCleared, fresh_out, fresh_in, fresh-Linked}
use psp.LrpcContext.{LrpcContext, push}
use psp.LrpcContext.Transfer.{Pushed, push-Pushed}
use psp.ReqType.{unknown}
use psp.Request.{RequestType}
use psp.Request.Ring.{IsRing}
use psp.Drain.{Dispatching, ctz, drain_queue}
use psp.Drain.Peers.{free_list}
use psp.Drain.Emptied.{IsDrained, drain_queue-IsDrained}

abbrev memory : Memory
memory = record { table = λ p i. record { cmd = 0; payload = 0 }; word = λ p. 0 }

memory-IsCleared : IsCleared memory 16 32
memory-IsCleared = record { table = λ i. refl; word = refl }

abbrev channels : LrpcContext
channels = record { ingress = λ k. fresh_in 16 32; egress = λ k. fresh_out 16 32 }

first_push : Pushed 0 [] 9 1 (fresh_in 16 32) (push 9 1 channels memory)
first_push = push-Pushed [] 9 1 channels (fresh-Linked memory-IsCleared)

abbrev one_request : RequestType
one_request = record {
  type = unknown;
  rqueue = λ i. 9;
  tsqueue = λ i. 77;
  rqueue_tail = 4095;
  rqueue_head = 4096;
}

one_request-IsRing : IsRing 4095 (9 ∷ []) (77 ∷ []) one_request
one_request-IsRing = record {
  requests = (refl, tt);
  stamps = (refl, tt);
  same_length = refl;
  tail = refl;
  head = refl;
  fits = omega arith;
}

abbrev dispatcher : Dispatching
dispatcher = record {
  rtypes = λ k. one_request;
  mean_ns = λ k. 0;
  window_count = λ k. 0;
  type_to_nsorder = λ k. 0;
  free_peers = 6;
  num_dped = 5;
  peer_dpt_tsc = λ k. 0;
  lrpc_ctx = channels;
  mem = memory;
}

two_free : free_list 32 0 6 ≡ 1 ∷ 2 ∷ []
unfolding free_list
two_free = refl

lowest_free : ctz 32 6 ≡ 1
unfolding ctz
lowest_free = refl

drain_queue-IsDrained_example :
    (d' : Dispatching) × (drain_queue 3 0 99 dispatcher ≡ ok d')
    × IsDrained 0 4095 (9 ∷ []) (77 ∷ []) (1 ∷ 2 ∷ []) first_push.ctx first_push.mem dispatcher d'
drain_queue-IsDrained_example =
    drain_queue-IsDrained 0 99 3 4095 (9 ∷ []) (77 ∷ []) (1 ∷ 2 ∷ []) first_push.ctx first_push.mem
      dispatcher (omega arith) one_request-IsRing (omega arith) (omega arith) (omega arith) two_free
      (first_push.ctx, first_push.mem, first_push.runs, (refl, refl))
