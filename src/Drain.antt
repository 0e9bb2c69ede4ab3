-- ===== src/Drain.antt =====
-- src/c++/libos/su/dispatch_su.cc: `drain_queue`, `signal_free_worker` and `enqueue` of the dispatcher,
-- over the ring of a request type and the channels to the workers.
mod Examples
pub mod Peers
pub mod Emptied
use psp.Base.{
  ℕ, zero, suc, ◌+◌, ◌-◌, ◌*◌, ◌/◌, ◌%◌, ◌^◌, Bool, ◌&&◌, ltb, ◌==◌, if◌then◌else◌, bit_and, bit_or,
  bit_xor, update, add32, add64, sub64, u64_mod, Run, ok, fault, stuck, ◌>>=◌,
}
use psp.Lrpc.{Memory}
use psp.LrpcContext.{LrpcContext, push}
use psp.ReqType.{ReqType, unknown}
use psp.Client.{type_number}
use psp.Request.{RequestType, rqueue_len, push_to_rqueue}

-- `__builtin_ctz`: the place of the lowest bit that is set, of so many bits
unfoldable pub ctz : (bits x : ℕ) → ℕ
ctz zero x = 0
ctz (suc bits) x = let rest = ctz bits (x / 2) in if x % 2 == 1 then 0 else rest + 1

-- the fields of the dispatcher that these functions use
pub record Dispatching : Type 0 where
  pub rtypes : ℕ → RequestType
  pub mean_ns : ℕ → ℕ
  pub window_count : ℕ → ℕ
  pub type_to_nsorder : ℕ → ℕ
  pub free_peers : ℕ
  pub num_dped : ℕ
  pub peer_dpt_tsc : ℕ → ℕ
  pub lrpc_ctx : LrpcContext
  pub mem : Memory

-- a round of `drain_queue` after a push to the peer with the status, for the queue at place `k`
unfoldable pub dispatched :
    (k cur_tsc peer_id status : ℕ) → LrpcContext → Memory → Dispatching → Dispatching
dispatched k cur_tsc peer_id status ctx mem d =
    if status == 0
    then record d {
      num_dped = add32 d.num_dped 1;
      rtypes =
          update d.rtypes k
            (record (d.rtypes k) { rqueue_tail = add32 (d.rtypes k).rqueue_tail 1 });
      free_peers = bit_xor d.free_peers (2 ^ peer_id);
      peer_dpt_tsc = update d.peer_dpt_tsc peer_id cur_tsc;
      lrpc_ctx = ctx;
      mem = mem;
    }
    else record d { lrpc_ctx = ctx; mem = mem }

-- `drain_queue` of the type at place `k`, for so many rounds
unfoldable pub drain_queue : (rounds k cur_tsc : ℕ) → Dispatching → Run Dispatching
drain_queue zero k cur_tsc d = stuck
drain_queue (suc rounds) k cur_tsc d =
    if ltb (d.rtypes k).rqueue_tail (d.rtypes k).rqueue_head && ltb 0 d.free_peers
    then (do
      let req = (d.rtypes k).rqueue (bit_and (d.rtypes k).rqueue_tail (rqueue_len - 1))
      let peer_id = ctz 32 d.free_peers
      (status, ctx, mem) ← push req peer_id d.lrpc_ctx d.mem
      drain_queue rounds k cur_tsc (dispatched k cur_tsc peer_id status ctx mem d))
    else ok d

-- `enqueue`: the status, and the ring of the unknown type with the request
unfoldable pub enqueue : (req cur_tsc : ℕ) → Dispatching → ℕ × Dispatching
enqueue req cur_tsc d =
    let k = d.type_to_nsorder (type_number unknown) in
    let (status, rtype) = push_to_rqueue req cur_tsc (d.rtypes k) in
    (status, record d { rtypes = update d.rtypes k rtype })

-- `signal_free_worker`: the upper four bits of a notification are a type, the others a time
unfoldable pub signal_free_worker : (peer_id notif : ℕ) → Dispatching → Run Dispatching
signal_free_worker peer_id notif d =
    let k = d.type_to_nsorder (notif / 2 ^ 60) in
    let service_time = sub64 (notif % 2 ^ 60) (d.peer_dpt_tsc peer_id) in
    if add64 (d.window_count k) 1 == 0
    then fault
    else ok (record d {
      mean_ns = update d.mean_ns k (
          add64 service_time (d.mean_ns k * d.window_count k % u64_mod)
          / add64 (d.window_count k) 1);
      window_count = update d.window_count k (add64 (d.window_count k) 1);
      free_peers = bit_or d.free_peers (2 ^ peer_id);
    })
