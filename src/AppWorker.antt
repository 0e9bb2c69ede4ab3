-- ===== src/AppWorker.antt =====
-- src/c++/libos/common/Worker.cc: `app_work` and `app_dequeue`, by which an application's worker takes
-- a request from the dispatcher's channel, answers it and sends the answer.
pub mod Answer
mod Examples
use psp.Base.{
  ℕ, Ptr, ◌+◌, ◌-◌, ◌*◌, ◌%◌, ◌^◌, Bool, true, false, Option, none, some, List, ltb, ◌==◌,
  if◌then◌else◌, bit_and, bit_xor, update, add32, sub32, Run, ok, panic, ◌>>=◌,
}
use psp.Lrpc.{Memory}
use psp.LrpcContext.{LrpcContext, push, pop}
use psp.Udp.{UdpContext, Mbufs, outbound_q_len, send_packets}

-- the parts of a `Worker` that the two functions use, with the memory and the packets
pub record AppWorker : Type 0 where
  pub udp : UdpContext
  pub lrpc_ctx : LrpcContext
  pub notify : Bool
  pub memory : Memory
  pub mbufs : Mbufs

-- `outbound_queue[push_head++ & (OUTBOUND_Q_LEN - 1)] = payload`
abbrev pub put_outbound : ℕ → UdpContext → UdpContext
put_outbound payload udp = record udp {
  outbound_queue = update udp.outbound_queue (bit_and udp.push_head (outbound_q_len - 1)) payload;
  push_head = add32 udp.push_head 1;
}

-- `app_work`. What `process_request` answers, and does to the packets, is a parameter, and so are
-- the type in the packet and the time that are sent to the dispatcher; a notice that finds the
-- channel full is dropped.
unfoldable pub app_work :
    (process_request : Mbufs → ℕ × Mbufs) → (type tsc payload : ℕ) → AppWorker → Run AppWorker
app_work process_request type tsc payload w =
    let (status, mbufs) = process_request w.mbufs in
    if status == 0
    then (let w' : AppWorker = record w { mbufs = mbufs; udp = put_outbound payload w.udp } in
        if w.notify
        then (do
          (pushed, ctx, m) ← push (bit_xor (type * 2 ^ 60 % 2 ^ 64) tsc) 0 w'.lrpc_ctx w'.memory
          ok (record w' { lrpc_ctx = ctx; memory = m }))
        else ok w')
    else panic

-- the first half of `app_dequeue`: a request is only taken when its answer has a place
unfoldable pub take_payload : AppWorker → Option ℕ × AppWorker
take_payload w =
    if ltb (sub32 w.udp.push_head w.udp.push_tail) outbound_q_len
    then (let (r, ctx, m) = pop 0 w.lrpc_ctx w.memory in
        (r, record w { lrpc_ctx = ctx; memory = m }))
    else (none, w)

-- `app_dequeue`; `none` is `EAGAIN`
unfoldable pub app_dequeue :
    (cksum_flag : ℕ) → (tx_burst : List Ptr → ℕ) → AppWorker → Run (Option ℕ × AppWorker)
app_dequeue cksum_flag tx_burst w =
    let (r, w') = take_payload w in
    if ltb w'.udp.push_tail w'.udp.push_head
    then (do
      (sent, udp, mbufs, pkts) ← send_packets cksum_flag tx_burst w'.udp w'.mbufs
      if sent == 0 then ok (r, record w' { udp = udp; mbufs = mbufs }) else panic)
    else ok (r, w')
