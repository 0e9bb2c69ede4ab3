-- ===== src/Scheduler/Examples.antt =====
-- One worker, which has finished a request while another one waits in the queue.
use psp.Base.{◌≤◌, ◌≡◌, refl, true, false, [], ◌∷◌, arith}
use psp.Context.Examples.{contexts}
use psp.TaskQueue.Examples.{request, one_queued, one_task, one-Represents}
use psp.Scheduler.{
  State, Bench, yielded, waiting, active, running, finished, preempted, context, dispatch,
  run_request, visit, collect, handle_finished, dispatch_request, take_request, init_worker,
}
use psp.Scheduler.Protocol.{World, visits, takes, Reach, here, next, Conserved, Reach-Conserved}
use psp.Scheduler.Starved.{IsStarved, init_worker-IsStarved}
use psp.TaskQueue.{tskq_dequeue}
use psp.Base.{update}
use psp.Scheduler.View.{View, done, dispatch_view, IsView}
use psp.Scheduler.Visit.{dispatch-IsView}
use psp.Scheduler.Conserve.{in_all, load, in_flight, of_queue, of_slots, of_slot, of_freed}
use psp.Scheduler.Work.{handed_back, run_packet}

abbrev no_bench : Bench
no_bench = record {
  total_packets = 0;
  small_packets = 0;
  big_packets = 0;
  start_time = 0;
  end_time = 0;
  test_finished = false;
  is_first_packet = false;
}

abbrev pub one_finished : State
one_finished = record {
  responses = λ i. record { flag = finished; item = request 8 };
  requests = λ i. record { flag = waiting; item = request 8 };
  timestamps = λ i. 0;
  preempt_check = λ i. false;
  tskq = one_queued;
  tasks = one_task;
  contexts = contexts 1;
  point = λ p. yielded 2 2;
  bench = no_bench;
  freed = [];
}

abbrev one_view : View
one_view = record { queue = request 9 ∷ []; slot = λ i. done (request 8); freed = [] }

one-IsView : IsView 2 1 (λ i. false) one_finished one_view
one-IsView = record {
  queue = one-Represents;
  slots = λ i lo hi. (refl, refl, refl, refl);
  freed = refl;
}

dispatch-IsView_example :
    IsView 2 1 (λ i. false) (dispatch 1 77 one_finished) (dispatch_view 2 1 1 one_view)
dispatch-IsView_example = dispatch-IsView 2 1 (λ i. false) 77 one_finished one_view one-IsView

-- the request in the queue, and the one at the worker
two_at_most : load 1 one_view ≤ 2
unfolding in_flight of_queue of_slots of_slot
two_at_most = omega arith

run_packet_example :
    ((run_request 5 (λ p. true) 1 64 one_finished).responses 1
      ≡ record { flag = preempted; item = handed_back one_finished 1 })
    × ((run_request 5 (λ p. true) 1 64 one_finished).point 7 ≡ yielded 2 2)
run_packet_example = run_packet 5 (λ p. true) 1 64 one_finished refl

-- the same request, to be resumed
abbrev one_resumed : State
one_resumed = record one_finished {
  requests = λ i. record { flag = waiting; item = record (request 8) { category = context } };
}

abbrev all_finished : World
all_finished = record { state = one_finished; taken = λ i. false }

-- the packets at 8 and 9
both : in_all (λ p. p) 1 one_view ≡ 17
unfolding in_flight of_queue of_slots of_slot of_freed
both = refl

all_finished-Conserved : Conserved (λ p. p) 2 1 17 all_finished
all_finished-Conserved = record {
  view = one_view;
  shown = one-IsView;
  fits = two_at_most;
  all = both;
}

-- the worker has been given the waiting request
abbrev visited : World
visited = record all_finished { state = visit 77 1 one_finished }

given : (visited.state.requests 1).flag ≡ active
unfolding visit collect handle_finished dispatch_request tskq_dequeue update
given = refl

visit-take-Reach :
    Reach 1 all_finished
      (record { state = take_request 1 visited.state; taken = update (λ i. false) 1 true })
visit-take-Reach =
    next (next here (visits all_finished 77 1 (omega arith) (omega arith)))
      (takes visited 1 (omega arith) (omega arith) refl given)

Reach-Conserved_example :
    Conserved
      (λ p. p)
      2
      1
      17
      (record { state = take_request 1 visited.state; taken = update (λ i. false) 1 true })
Reach-Conserved_example = Reach-Conserved visit-take-Reach all_finished-Conserved

-- every flag is 0
abbrev at_start : World
at_start = record all_finished {
  state = record one_finished { responses = λ i. record { flag = running; item = request 8 } };
}

init_worker-IsStarved_example :
    IsStarved 2 (record at_start { state = visit 77 2 (init_worker at_start.state) })
init_worker-IsStarved_example =
    init_worker-IsStarved {n = 2} {w = at_start} 2 (omega arith)
      (record { response = refl; request = refl; idle = refl })
      (next here (
        visits (record at_start { state = init_worker at_start.state }) 77 2 (omega arith)
          (omega arith)))
