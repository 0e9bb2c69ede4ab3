-- ===== src/Scheduler/View.antt =====
-- What the dispatcher sees of the shared state: a queue of requests, and for each worker a place
-- that is free, or holds the request that the worker runs, has finished or has given up.
use psp.Base.{ℕ, zero, suc, Ptr, ◌+◌, ◌≤◌, ◌≡◌, ◌⊎◌, Bool, true, false, List, [], ◌∷◌, update}
use psp.TaskQueue.{Item}
use psp.TaskQueue.Chain.{Represents}
use psp.TaskQueue.Fifo
use psp.Scheduler.{Cell, State, waiting, active, running, finished, preempted, processed}

pub data Slot : Type 0 where
  free : Slot
  busy : Item → Slot
  done : Item → Slot
  paused : Item → Slot

pub record View : Type 0 where
  pub queue : List Item
  pub slot : ℕ → Slot
  pub freed : List Ptr

-- the queue's first request goes to worker `i`
abbrev pub assign_first : ℕ → View → List Item → View
assign_first i v [] = v
assign_first i v (e ∷ q) = record v { queue = q; slot = update v.slot i (busy e) }

abbrev pub assign : ℕ → View → View
assign i v = assign_first i v v.queue

-- what a visit to a worker in this place does
abbrev pub visit_slot : ℕ → ℕ → View → Slot → View
visit_slot capacity i v free = assign i v
visit_slot capacity i v (busy e) = v
visit_slot capacity i v (done e) =
    assign i (record v { slot = update v.slot i free; freed = e.mbuf ∷ v.freed })
visit_slot capacity i v (paused e) =
    assign i (record v { slot = update v.slot i free; queue = Fifo.enqueue capacity v.queue e })

abbrev pub visit_view : ℕ → ℕ → View → View
visit_view capacity i v = visit_slot capacity i v (v.slot i)

unfoldable pub dispatch_view : ℕ → ℕ → ℕ → View → View
dispatch_view capacity zero i v = v
dispatch_view capacity (suc n) i v = dispatch_view capacity n (i + 1) (visit_view capacity i v)

-- whose turn it is with a request: the worker has yet to take it, or has taken it
abbrev pub Turn : Cell → Bool → Type 0
Turn request taken =
    ((request.flag ≡ active) × (taken ≡ false)) ⊎ ((request.flag ≡ waiting) × (taken ≡ true))

-- how the two cells of a worker, and whether it has taken a request, show its place
abbrev pub Shows : Cell → Cell → Bool → Slot → Type 0
Shows response request taken free =
    (response.flag ≡ processed) × (request.flag ≡ waiting) × (taken ≡ false)
Shows response request taken (busy e) =
    (response.flag ≡ running) × (request.item ≡ e) × Turn request taken
Shows response request taken (done e) =
    (response.flag ≡ finished) × (response.item ≡ e) × (request.flag ≡ waiting) × (taken ≡ false)
Shows response request taken (paused e) =
    (response.flag ≡ preempted) × (response.item ≡ e) × (request.flag ≡ waiting) × (taken ≡ false)

-- workers 1 to `n` are in their places; `taken i` says that worker `i` runs a request
pub record IsView (capacity n : ℕ) (taken : ℕ → Bool) (s : State) (v : View) : Type 0 where
  pub queue : Represents s.tskq s.tasks capacity v.queue
  pub slots : (i : ℕ) → 1 ≤ i → i ≤ n → Shows (s.responses i) (s.requests i) (taken i) (v.slot i)
  pub freed : s.freed ≡ v.freed
