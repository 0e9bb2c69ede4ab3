-- ===== src/NetWorker.antt =====
-- src/c++/libos/su/net_su.cc: the round of the net worker, which runs the dispatcher and turns the
-- packets of the inbound queue into tasks.
pub mod Batch
mod Examples
use psp.Base.{
  ℕ, zero, suc, Ptr, ◌+◌, ◌-◌, Bool, true, false, ◌&&◌, ◌||◌, none, some, ltb, if◌then◌else◌,
  bit_and, add32, add64, sub64, Run, ok, stuck, ◌>>=◌,
}
use psp.Udp.{UdpContext, inbound_q_len, max_rx_burst}
use psp.TaskQueue.{Item, tskq_enqueue_tail}
use psp.Context.{context_alloc}
use psp.Scheduler.{State, packet, dispatch}

-- `BENCHMARK_DURATION_US`
abbrev pub benchmark_duration_us : ℕ
benchmark_duration_us = 60_000_000

-- a `NetWorker` with its UDP context, and the state that it shares with the workers
pub record Net : Type 0 where
  pub udp : UdpContext
  pub shared : State
  pub n_rcvd : ℕ
  pub n_batchs_rcvd : ℕ

-- the task of a packet
abbrev pub packet_item : Ptr → Ptr → ℕ → Item
packet_item cont mbuf tsc = record {
  runnable = cont;
  mbuf = mbuf;
  type = 1;
  category = packet;
  timestamp = tsc;
}

-- the packet at `pop_tail` becomes a task, and is taken off the inbound queue
unfoldable pub enqueue_packet : ℕ → Ptr → Net → Net
enqueue_packet cur_tsc cont w =
    let mbuf = w.udp.inbound_queue (bit_and w.udp.pop_tail (inbound_q_len - 1)) in
    let (tq, mem) =
      tskq_enqueue_tail w.shared.tskq (packet_item cont mbuf cur_tsc) w.shared.tasks in
    record w {
      udp = record w.udp { pop_tail = add32 w.udp.pop_tail 1 };
      shared = record w.shared { tskq = tq; tasks = mem };
    }

-- the loop of `work` over the inbound queue, for at most so many rounds; the result counts the
-- packets. A round that gets no context changes nothing and goes round again.
unfoldable pub receive_batch : ℕ → ℕ → ℕ → Net → Run (ℕ × Net)
receive_batch zero cur_tsc batch_dequeued w = stuck
receive_batch (suc rounds) cur_tsc batch_dequeued w =
    if ltb w.udp.pop_tail w.udp.pop_head && ltb batch_dequeued max_rx_burst
    then (let (r, cs) = context_alloc w.shared.contexts in
        let w' : Net = record w { shared = record w.shared { contexts = cs } } in
        elim r [
          | none ↦ receive_batch rounds cur_tsc batch_dequeued w'
          | some cont ↦
              receive_batch rounds cur_tsc (batch_dequeued + 1) (enqueue_packet cur_tsc cont w')
        ])
    else ok (batch_dequeued, w)

-- `work`, at the times that it reads, and with the rounds that its loop is given; the result is the
-- status
unfoldable pub work : (rounds now dispatch_tsc cur_tsc n_peers : ℕ) → Net → Run (ℕ × Net)
work rounds now dispatch_tsc cur_tsc n_peers w =
    let b = w.shared.bench in
    if b.is_first_packet && (b.test_finished || ltb benchmark_duration_us (sub64 now b.start_time))
    then ok (1, w)
    else (do
      (n, w') ← receive_batch rounds cur_tsc 0 (record w {
        shared = dispatch n_peers dispatch_tsc w.shared;
        n_batchs_rcvd = add64 w.n_batchs_rcvd 1;
      })
      ok (0, record w' { n_rcvd = add32 w'.n_rcvd n }))
