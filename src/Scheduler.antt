-- ===== src/Scheduler.antt =====
-- The shared state of the scheduler (include/psp/dispatch.h and the globals of dispatch_su.cc), the
-- dispatcher's round over it (src/c++/libos/su/dispatch_su.cc), and what a worker thread does with
-- a request (src/c++/libos/common/Worker.cc).
pub mod Examples
pub mod Conserve
pub mod Protocol
pub mod Steps
pub mod Starved
pub mod View
pub mod Visit
pub mod Work
use psp.Base.{
  ℕ, zero, suc, Ptr, null, ◌+◌, ◌-◌, Bool, true, false, Option, none, some, List, [], ◌∷◌, ltb,
  ◌==◌, if◌then◌else◌, not, ◌||◌, update, add64,
}
use psp.TaskQueue.{Item, TaskQueue, TaskMemory, tskq_enqueue_tail, tskq_dequeue}
use psp.Context.{Contexts, context_free, set_context_link}

-- `WAITING` and `ACTIVE`, the flags of a request
abbrev pub waiting : ℕ
waiting = 0

abbrev pub active : ℕ
active = 1

-- `RUNNING`, `FINISHED`, `PREEMPTED` and `PROCESSED`, the flags of a response
abbrev pub running : ℕ
running = 0

abbrev pub finished : ℕ
finished = 1

abbrev pub preempted : ℕ
preempted = 2

abbrev pub processed : ℕ
processed = 3

-- `PACKET` and `CONTEXT`
abbrev pub packet : ℕ
packet = 1

abbrev pub context : ℕ
context = 2

-- `struct worker_response` and `struct dispatcher_request`: a flag, and the same five fields
pub record Cell : Type 0 where
  pub flag : ℕ
  pub item : Item

-- where the code of a request stands in its context: not started, or at the yield of round `i` of
-- its loop with the loop's counter `k`, or at its end
pub data Point : Type 0 where
  started : Point
  yielded : (i k : ℕ) → Point
  ended : Point

-- the counters of the benchmark
pub record Bench : Type 0 where
  pub total_packets : ℕ
  pub small_packets : ℕ
  pub big_packets : ℕ
  pub start_time : ℕ
  pub end_time : ℕ
  pub test_finished : Bool
  pub is_first_packet : Bool

pub record State : Type 0 where
  pub responses : ℕ → Cell
  pub requests : ℕ → Cell
  pub timestamps : ℕ → ℕ
  pub preempt_check : ℕ → Bool
  pub tskq : TaskQueue
  pub tasks : TaskMemory
  pub contexts : Contexts
  pub point : Ptr → Point
  pub bench : Bench
  -- the packets handed to `rte_pktmbuf_free`, the last one first
  pub freed : List Ptr

abbrev pub set_flag : ℕ → ℕ → (ℕ → Cell) → ℕ → Cell
set_flag i f cells = update cells i (record (cells i) { flag = f })

-- `dispatch_request`
unfoldable pub dispatch_request : ℕ → ℕ → State → State
dispatch_request i cur_time s =
    let (r, tq, mem) = tskq_dequeue s.tskq s.tasks in
    elim r [
      | none ↦ record s { tskq = tq; tasks = mem }
      | some e ↦ record s {
        tskq = tq;
        tasks = mem;
        responses = set_flag i running s.responses;
        requests = update s.requests i (record { flag = active; item = e });
        timestamps = update s.timestamps i cur_time;
        preempt_check = update s.preempt_check i true;
      }
    ]

-- `handle_finished`
unfoldable pub handle_finished : ℕ → State → State
handle_finished i s = record s {
  contexts = context_free (s.responses i).item.runnable s.contexts;
  freed = (s.responses i).item.mbuf ∷ s.freed;
  preempt_check = update s.preempt_check i false;
  responses = set_flag i processed s.responses;
}

-- `handle_preempted`
unfoldable pub handle_preempted : ℕ → State → State
handle_preempted i s =
    let (tq, mem) = tskq_enqueue_tail s.tskq (s.responses i).item s.tasks in
    record s {
      tskq = tq;
      tasks = mem;
      preempt_check = update s.preempt_check i false;
      responses = set_flag i processed s.responses;
    }

-- the part of a visit that comes before `dispatch_request`
unfoldable pub collect : ℕ → State → State
collect i s =
    if (s.responses i).flag == finished
    then handle_finished i s
    else if (s.responses i).flag == preempted
    then handle_preempted i s
    else s

-- one round of the loop of `Dispatcher::dispatch`
unfoldable pub visit : ℕ → ℕ → State → State
visit cur_tsc i s =
    if not ((s.responses i).flag == running) then dispatch_request i cur_tsc (collect i s) else s

-- the loop, from worker `i` on for so many workers
unfoldable pub visit_from : ℕ → ℕ → ℕ → State → State
visit_from cur_tsc zero i s = s
visit_from cur_tsc (suc n) i s = visit_from cur_tsc n (i + 1) (visit cur_tsc i s)

-- `Dispatcher::dispatch`
unfoldable pub dispatch : ℕ → ℕ → State → State
dispatch n_peers cur_tsc s = visit_from cur_tsc n_peers 1 s

-- `simple_generic_work`: its loop from round `i` with counter `k`, up to a yield or its end
unfoldable pub work_loop : ℕ → ℕ → ℕ → Point
work_loop zero i k = ended
work_loop (suc n) i k =
    let rest = work_loop n (i + 1) (k + 1) in if k == 2 then yielded i k else rest

-- running a context until it swaps back: a new one starts the loop, one that yielded goes on in it;
-- the rounds are those left of the loop's four
unfoldable pub resume : Point → Point
resume started = work_loop 4 0 0
resume (yielded i k) = work_loop (4 - (i + 1)) (i + 1) (k + 1)
resume ended = ended

-- the counters at the end of `simple_generic_work`; a small request is a `DB_GET` or a `DB_PUT`
unfoldable pub count_packet : (now : ℕ) → (small : Bool) → Bench → Bench
count_packet now small b =
    let total = add64 b.total_packets 1 in
    record b {
      total_packets = total;
      end_time = if total == 100 then now else b.end_time;
      test_finished = if total == 100 then true else b.test_finished;
      small_packets = if small then add64 b.small_packets 1 else b.small_packets;
      big_packets = if small then b.big_packets else add64 b.big_packets 1;
    }

abbrev pub has_ended : Point → Bool
has_ended started = false
has_ended (yielded i k) = false
has_ended ended = true

-- the first step of a worker's round, which waits for a request: it takes the request
unfoldable pub take_request : ℕ → State → State
take_request i s = record s { requests = set_flag i waiting s.requests }

-- `makecontext` for a packet, and the test's start; a preempted request keeps its point
unfoldable pub enter : (now : ℕ) → ℕ → Ptr → State → State
enter now i uctx_main s =
    let e = (s.requests i).item in
    let linked : State = record s { contexts = set_context_link e.runnable uctx_main s.contexts } in
    if e.category == packet
    then record linked {
      point = update s.point e.runnable started;
      bench =
          if s.bench.is_first_packet
          then s.bench
          else record s.bench { start_time = now; is_first_packet = true };
    }
    else linked

-- `finish_request`
unfoldable pub finish_request : ℕ → Bool → State → State
finish_request i done s =
    let e = (s.requests i).item in
    record s {
      responses = update s.responses i (record {
        flag = if done then finished else preempted;
        item = record e { category = context };
      });
    }

-- the rest of a worker's round: it runs the request's context until it swaps back, and reports.
-- `small p` says whether packet `p` asks for a `DB_GET` or a `DB_PUT`.
unfoldable pub run_request : (now : ℕ) → (small : Ptr → Bool) → ℕ → Ptr → State → State
run_request now small i uctx_main s =
    let s' = enter now i uctx_main s in
    let e = (s'.requests i).item in
    let after = resume (s'.point e.runnable) in
    finish_request i (has_ended after) (record s' {
      point = update s'.point e.runnable after;
      bench = if has_ended after then count_packet now (small e.mbuf) s'.bench else s'.bench;
    })

-- `init_worker`, which names worker 1 whatever worker runs it
unfoldable pub init_worker : State → State
init_worker s = record s { responses = set_flag 1 processed s.responses }
