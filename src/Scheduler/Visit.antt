-- ===== src/Scheduler/Visit.antt =====
-- `dispatch` does what the dispatcher's view says.
use psp.Base.{
  ℕ, zero, suc, ◌+◌, ◌≤◌, ◌≡◌, ◌≢◌, refl, ap, Bool, true, false, inl, none, some, List, [], ◌∷◌,
  arith, update, update_self, update_ne,
}
use native.Mathlib.Decide.{ℕ_discrete}
use psp.TaskQueue.{Item, tskq_dequeue}
use psp.TaskQueue.Fifo
use psp.TaskQueue.Refine.{Dequeued, tskq_dequeue-Dequeued, tskq_enqueue_tail-Represents}
use psp.Scheduler.{
  Cell, State, waiting, running, active, processed, set_flag, dispatch_request, handle_finished,
  handle_preempted, collect, visit, visit_from, dispatch,
}
use psp.Scheduler.View.{
  Slot, free, busy, done, paused, View, assign_first, assign, visit_slot, visit_view, dispatch_view,
  Shows, IsView,
}

-- the places of the other workers are shown by cells that were not written
pub Shows-update :
    (responses responses' requests requests' : ℕ → Cell) (slot : ℕ → Slot) (taken taken' : ℕ → Bool)
    (i : ℕ) (x : Slot) (n : ℕ)
    → ((j : ℕ) → j ≢ i → responses' j ≡ responses j)
    → ((j : ℕ) → j ≢ i → requests' j ≡ requests j)
    → ((j : ℕ) → j ≢ i → taken' j ≡ taken j)
    → Shows (responses' i) (requests' i) (taken' i) x
    → ((j : ℕ) → 1 ≤ j → j ≤ n → Shows (responses j) (requests j) (taken j) (slot j))
    → (j : ℕ) → 1 ≤ j
    → j ≤ n
    → Shows (responses' j) (requests' j) (taken' j) (update slot i x j)
Shows-update rs rs' qs qs' slot taken taken' i x n same_r same_q same_t here there j lo hi =
    elim (ℕ_discrete j i) [
      | yes e ↦ rw (e, update_self) here
      | no ne ↦ rw (update_ne slot i x j ne, same_r j ne, same_q j ne, same_t j ne) (there j lo hi)
    ]

-- the state after `dispatch_request`, with and without a request in the queue
abbrev without_request : State → State
without_request s = record s {
  tskq = (tskq_dequeue s.tskq s.tasks).1;
  tasks = (tskq_dequeue s.tskq s.tasks).2;
}

abbrev with_request : ℕ → ℕ → Item → State → State
with_request i cur e s = record s {
  tskq = (tskq_dequeue s.tskq s.tasks).1;
  tasks = (tskq_dequeue s.tskq s.tasks).2;
  responses = set_flag i running s.responses;
  requests = update s.requests i (record { flag = active; item = e });
  timestamps = update s.timestamps i cur;
  preempt_check = update s.preempt_check i true;
}

module _ (i cur : ℕ) (s : State) where
  request_none :
      (tskq_dequeue s.tskq s.tasks).0 ≡ none → dispatch_request i cur s ≡ without_request s
  unfolding dispatch_request
  request_none e = rw (e, dispatch_request)

  request_some :
      (e : Item)
      → (tskq_dequeue s.tskq s.tasks).0 ≡ some e
      → dispatch_request i cur s ≡ with_request i cur e s
  unfolding dispatch_request
  request_some e p = rw (p, dispatch_request)

module _ {capacity n : ℕ} {taken : ℕ → Bool} {s : State} {v : View} (i cur : ℕ) where
  request-IsView :
      (q : List Item)
      → Dequeued capacity q (tskq_dequeue s.tskq s.tasks)
      → q ≡ v.queue
      → taken i ≡ false
      → IsView capacity n taken s v
      → IsView capacity n taken (dispatch_request i cur s) (assign_first i v q)
  unfolding Fifo.dequeue
  request-IsView [] d same idle r =
      rw (request_none i cur s d.result)
        (record { queue = rw (← same) d.left; slots = r.slots; freed = r.freed })
  request-IsView (e ∷ q) d same idle r = rw (request_some i cur s e d.result) (record {
    queue = d.left;
    slots =
        Shows-update s.responses (set_flag i running s.responses) s.requests
          (update s.requests i (record { flag = active; item = e })) v.slot taken taken i (busy e) n
          (λ j ne. update_ne s.responses i _ j ne) (λ j ne. update_ne s.requests i _ j ne)
          (λ j ne. refl)
          (
            ap (λ (c : Cell). c.flag) (update_self s.responses i _),
            ap (λ (c : Cell). c.item) (update_self s.requests i _),
            inl (ap (λ (c : Cell). c.flag) (update_self s.requests i _), idle),
          )
          r.slots;
    freed = r.freed;
  })

  -- `dispatch_request` gives a worker the first request
  dispatch_request-IsView :
      taken i ≡ false
      → IsView capacity n taken s v
      → IsView capacity n taken (dispatch_request i cur s) (assign i v)
  dispatch_request-IsView idle r =
      request-IsView v.queue (tskq_dequeue-Dequeued capacity v.queue r.queue) refl idle r

  handle_finished-IsView :
      (e : Item)
      → (s.responses i).item ≡ e
      → (s.requests i).flag ≡ waiting
      → taken i ≡ false
      → IsView capacity n taken s v
      → IsView capacity n taken
          (handle_finished i s)
          (record v { slot = update v.slot i free; freed = e.mbuf ∷ v.freed })
  unfolding handle_finished
  handle_finished-IsView e it rest idle r = record {
    queue = r.queue;
    slots =
        Shows-update s.responses (set_flag i processed s.responses) s.requests s.requests v.slot
          taken taken i free n (λ j ne. update_ne s.responses i _ j ne) (λ j ne. refl)
          (λ j ne. refl) (ap (λ (c : Cell). c.flag) (update_self s.responses i _), rest, idle)
          r.slots;
    freed = rw (it, r.freed);
  }

  handle_preempted-IsView :
      (e : Item)
      → (s.responses i).item ≡ e
      → (s.requests i).flag ≡ waiting
      → taken i ≡ false
      → IsView capacity n taken s v
      → IsView capacity n taken
          (handle_preempted i s)
          (record v { slot = update v.slot i free; queue = Fifo.enqueue capacity v.queue e })
  unfolding handle_preempted
  handle_preempted-IsView e it rest idle r = record {
    queue = rw it (tskq_enqueue_tail-Represents e capacity v.queue r.queue);
    slots =
        Shows-update s.responses (set_flag i processed s.responses) s.requests s.requests v.slot
          taken taken i free n (λ j ne. update_ne s.responses i _ j ne) (λ j ne. refl)
          (λ j ne. refl) (ap (λ (c : Cell). c.flag) (update_self s.responses i _), rest, idle)
          r.slots;
    freed = r.freed;
  }

module _ (capacity n : ℕ) (taken : ℕ → Bool) (cur : ℕ) where
  visit-slot :
      (i : ℕ) (s : State) (v : View) (x : Slot)
      → Shows (s.responses i) (s.requests i) (taken i) x
      → IsView capacity n taken s v
      → IsView capacity n taken (visit cur i s) (visit_slot capacity i v x)
  unfolding visit collect
  visit-slot i s v free h r = rw h.0 (dispatch_request-IsView i cur h.2 r)
  visit-slot i s v (busy e) h r = rw h.0 r
  visit-slot i s v (done e) h r =
      rw h.0 (dispatch_request-IsView i cur h.3 (handle_finished-IsView i cur e h.1 h.2 h.3 r))
  visit-slot i s v (paused e) h r =
      rw h.0 (dispatch_request-IsView i cur h.3 (handle_preempted-IsView i cur e h.1 h.2 h.3 r))

  -- A visit of the dispatcher to a worker leaves a running worker alone; it takes the finished
  -- request of a worker and frees its packet, or puts a preempted one at the back of the queue, and
  -- then hands that worker the first request of the queue, if there is one.
  pub visit-IsView :
      (i : ℕ) (s : State) (v : View)
      → 1 ≤ i
      → i ≤ n
      → IsView capacity n taken s v
      → IsView capacity n taken (visit cur i s) (visit_view capacity i v)
  visit-IsView i s v lo hi r = visit-slot i s v (v.slot i) (r.slots i lo hi) r

  visit_from-IsView :
      (k i : ℕ) (s : State) (v : View)
      → 1 ≤ i
      → i + k ≤ n + 1
      → IsView capacity n taken s v
      → IsView capacity n taken (visit_from cur k i s) (dispatch_view capacity k i v)
  unfolding visit_from dispatch_view
  visit_from-IsView zero i s v lo hi r = r
  visit_from-IsView (suc k) i s v lo hi r =
      visit_from-IsView k (i + 1) (visit cur i s) (visit_view capacity i v) (omega arith)
        (omega arith) (visit-IsView i s v lo (omega arith) r)

  -- On cells that show a place for each worker, `Dispatcher::dispatch` visits the workers 1 to
  -- `n_peers` in this order, each once: it leaves a running worker alone, frees the packet of a
  -- finished request or puts a preempted one at the back of the queue, and then hands the worker
  -- the first request of the queue, if there is one.
  pub dispatch-IsView :
      (s : State) (v : View)
      → IsView capacity n taken s v
      → IsView capacity n taken (dispatch n cur s) (dispatch_view capacity n 1 v)
  unfolding dispatch
  dispatch-IsView s v r = visit_from-IsView n 1 s v (omega arith) (omega arith) r
