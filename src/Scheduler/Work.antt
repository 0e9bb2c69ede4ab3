-- ===== src/Scheduler/Work.antt =====
-- What a worker's round does with a request: `simple_generic_work` yields once, so a request runs
-- in two turns.
use psp.Base.{ℕ, Ptr, ◌≡◌, ◌≢◌, refl, Bool, arith, ne→==, update_self}
use psp.TaskQueue.{Item}
use psp.Scheduler.{
  started, yielded, ended, State, packet, context, finished, preempted, work_loop, resume, enter,
  finish_request, run_request,
}

pub resume-started : resume started ≡ yielded 2 2
unfolding resume work_loop
resume-started = refl

pub resume-yielded : resume (yielded 2 2) ≡ ended
unfolding resume work_loop
resume-yielded = refl

-- the request that a worker hands back: the same, as a context to be resumed
abbrev pub handed_back : State → ℕ → Item
handed_back s i = record (s.requests i).item { category = context }

module _ (now : ℕ) (small : Ptr → Bool) (i : ℕ) (uctx_main : Ptr) (s : State) where
  -- the requests are those before, and a packet's context has not started
  requests-enter : (enter now i uctx_main s).requests ≡ s.requests
  unfolding enter
  requests-enter = ground arith

  point-enter :
      (s.requests i).item.category ≡ packet
      → (enter now i uctx_main s).point (s.requests i).item.runnable ≡ started
  unfolding enter
  point-enter new = rw new (update_self s.point (s.requests i).item.runnable started)

  point-enter-again :
      (s.requests i).item.category ≢ packet
      → (enter now i uctx_main s).point (s.requests i).item.runnable
        ≡ s.point (s.requests i).item.runnable
  unfolding enter
  point-enter-again old = rw (ne→== (s.requests i).item.category packet old) refl

  -- A worker that takes a new packet starts its context, which runs up to the yield: the worker
  -- reports the request as preempted, and it is a context to be resumed from there.
  pub run_packet :
      (s.requests i).item.category ≡ packet
      → ((run_request now small i uctx_main s).responses i
          ≡ record { flag = preempted; item = handed_back s i })
        × ((run_request now small i uctx_main s).point (s.requests i).item.runnable ≡ yielded 2 2)
  unfolding run_request finish_request
  run_packet new =
      rw (requests-enter, point-enter new, resume-started) (update_self _ i _, update_self _ _ _)

  -- A worker that takes a request whose context yielded resumes it there, and it runs to its end:
  -- the worker reports the request as finished.
  pub run_context :
      (s.requests i).item.category ≢ packet
      → s.point (s.requests i).item.runnable ≡ yielded 2 2
      → ((run_request now small i uctx_main s).responses i
          ≡ record { flag = finished; item = handed_back s i })
        × ((run_request now small i uctx_main s).point (s.requests i).item.runnable ≡ ended)
  unfolding run_request finish_request
  run_context old there =
      rw (requests-enter, point-enter-again old, there, resume-yielded)
        (update_self _ i _, update_self _ _ _)
