-- ===== src/Scheduler/Conserve.antt =====
-- No request is lost or doubled by the dispatcher: a packet that is in the queue or at a worker
-- stays there, or is freed.
use psp.Base.{
  ℕ, zero, suc, Ptr, ◌+◌, ◌≤◌, ◌<◌, ◌≡◌, Bool, refl, ◌∙◌, List, [], ◌∷◌, ◌++◌, length, lt→ltb,
  arith, update, update_self, update_ne,
}
use native.Mathlib.Decide.{ℕ_discrete}
use psp.TaskQueue.{Item}
use psp.TaskQueue.Fifo
use psp.Scheduler.View.{
  Slot, free, busy, done, paused, View, assign_first, assign, visit_slot, visit_view, dispatch_view,
  IsView,
}
use psp.Scheduler.{State, dispatch}
use psp.Scheduler.Visit.{dispatch-IsView}

-- a number for each packet, added up over the packets of a part of the state
module _ (weight : Ptr → ℕ) where
  unfoldable pub of_queue : List Item → ℕ
  of_queue [] = 0
  of_queue (e ∷ q) = weight e.mbuf + of_queue q

  unfoldable pub of_slot : Slot → ℕ
  of_slot free = 0
  of_slot (busy e) = weight e.mbuf
  of_slot (done e) = weight e.mbuf
  of_slot (paused e) = weight e.mbuf

  -- the places of the workers 1 to `n`
  unfoldable pub of_slots : ℕ → (ℕ → Slot) → ℕ
  of_slots zero slot = 0
  of_slots (suc n) slot = of_slots n slot + of_slot (slot (suc n))

  unfoldable pub of_freed : List Ptr → ℕ
  of_freed [] = 0
  of_freed (p ∷ ps) = weight p + of_freed ps

  -- the packets in the queue and at the workers 1 to `n`
  unfoldable pub in_flight : ℕ → View → ℕ
  in_flight n v = of_queue v.queue + of_slots n v.slot

  of_queue-append :
      (q : List Item) (e : Item) → of_queue (q ++ (e ∷ [])) ≡ of_queue q + weight e.mbuf
  unfolding of_queue
  of_queue-append [] e = omega arith
  of_queue-append (d ∷ q) e = omega (arith, of_queue-append q e)

  of_slots-above :
      (n i : ℕ) (slot : ℕ → Slot) (x : Slot)
      → n < i
      → of_slots n (update slot i x) ≡ of_slots n slot
  unfolding of_slots
  of_slots-above zero i slot x h = refl
  of_slots-above (suc n) i slot x h =
      rw (update_ne slot i x (suc n) (omega arith), of_slots-above n i slot x (omega arith))

  pub of_slots-update :
      (n i : ℕ) (slot : ℕ → Slot) (x : Slot)
      → 1 ≤ i
      → i ≤ n
      → of_slots n (update slot i x) + of_slot (slot i) ≡ of_slots n slot + of_slot x
  unfolding of_slots
  of_slots-update zero i slot x lo hi = absurd (omega arith)
  of_slots-update (suc n) i slot x lo hi = elim (ℕ_discrete i (suc n)) [
    | yes e ↦ rw (e, update_self, of_slots-above n (suc n) slot x (omega arith)) (omega arith)
    | no ne ↦
        rw (update_ne slot i x (suc n) (omega arith))
          (omega (arith, of_slots-update n i slot x lo (omega arith)))
  ]

  of_slot-le : (n i : ℕ) (slot : ℕ → Slot) → 1 ≤ i → i ≤ n → of_slot (slot i) ≤ of_slots n slot
  unfolding of_slots
  of_slot-le zero i slot lo hi = absurd (omega arith)
  of_slot-le (suc n) i slot lo hi = elim (ℕ_discrete i (suc n)) [
    | yes e ↦ rw e (omega arith)
    | no ne ↦ omega (arith, of_slot-le n i slot lo (omega arith))
  ]

  -- handing a free worker a request moves that request
  assign-in_flight :
      (n i : ℕ) (v : View) (q : List Item)
      → 1 ≤ i
      → i ≤ n
      → v.slot i ≡ free
      → v.queue ≡ q
      → in_flight n (assign_first i v q) ≡ in_flight n v
  unfolding in_flight of_queue of_slot
  assign-in_flight n i v [] lo hi f same = refl
  assign-in_flight n i v (e ∷ q) lo hi f same =
      let moved = of_slots-update n i v.slot (busy e) lo hi in
      let none : of_slot (v.slot i) ≡ 0 = rw f in
      let all : of_queue v.queue ≡ weight e.mbuf + of_queue q = rw same in
      omega (arith, moved, none, all)

  freed-assign : (i : ℕ) (v : View) (q : List Item) → (assign_first i v q).freed ≡ v.freed
  freed-assign i v [] = refl
  freed-assign i v (e ∷ q) = refl

  -- the packets in flight and those freed, together
  abbrev pub in_all : ℕ → View → ℕ
  in_all n v = in_flight n v + of_freed v.freed

  assign-in_all :
      (n i : ℕ) (v : View) → 1 ≤ i → i ≤ n → v.slot i ≡ free → in_all n (assign i v) ≡ in_all n v
  assign-in_all n i v lo hi f =
      rw (assign-in_flight n i v v.queue lo hi f refl, freed-assign i v v.queue)

  -- the places of the workers when one of them becomes free
  emptied :
      (n i : ℕ) (v : View) (x : Slot)
      → 1 ≤ i
      → i ≤ n
      → v.slot i ≡ x
      → of_slots n (update v.slot i free) + of_slot x ≡ of_slots n v.slot
  unfolding of_slot
  emptied n i v x lo hi f =
      let same : of_slot (v.slot i) ≡ of_slot x = rw f in
      omega (arith, of_slots-update n i v.slot free lo hi, same)

  visit_slot-in_all :
      (capacity n i : ℕ) (v : View) (x : Slot)
      → 1 ≤ i
      → i ≤ n
      → v.slot i ≡ x
      → ((e : Item) → x ≡ paused e → length v.queue < capacity)
      → in_all n (visit_slot capacity i v x) ≡ in_all n v
  unfolding in_flight of_freed of_slot Fifo.enqueue
  visit_slot-in_all capacity n i v free lo hi f room = assign-in_all n i v lo hi f
  visit_slot-in_all capacity n i v (busy e) lo hi f room = refl
  visit_slot-in_all capacity n i v (done e) lo hi f room =
      assign-in_all n i (record v { slot = update v.slot i free; freed = e.mbuf ∷ v.freed }) lo hi
        (update_self v.slot i free)
      ∙ omega (arith, emptied n i v (done e) lo hi f)
  visit_slot-in_all capacity n i v (paused e) lo hi f room =
      assign-in_all n i
        (record v { slot = update v.slot i free; queue = Fifo.enqueue capacity v.queue e }) lo hi
        (update_self v.slot i free)
      ∙ rw (lt→ltb (length v.queue) capacity (room e refl))
          (omega (arith, emptied n i v (paused e) lo hi f, of_queue-append v.queue e))

length-of_queue : (q : List Item) → of_queue (λ _. 1) q ≡ length q
unfolding of_queue
length-of_queue [] = refl
length-of_queue (e ∷ q) = omega (arith, length-of_queue q)

-- so many requests are in the queue and at the workers 1 to `n`
abbrev pub load : ℕ → View → ℕ
load n v = in_flight (λ _. 1) n v

-- while the queue and the workers hold no more requests than the pool has tasks, a preempted
-- request finds room in the queue
paused_room :
    (capacity n i : ℕ) (v : View) (e : Item)
    → 1 ≤ i
    → i ≤ n
    → load n v ≤ capacity
    → v.slot i ≡ paused e
    → length v.queue < capacity
unfolding in_flight of_slot
paused_room capacity n i v e lo hi fit f =
    let one : of_slot (λ _. 1) (v.slot i) ≡ 1 = rw f in
    omega (arith, of_slot-le (λ _. 1) n i v.slot lo hi, one, length-of_queue v.queue)

pub visit-in_all :
    (weight : Ptr → ℕ) (capacity n i : ℕ) (v : View)
    → 1 ≤ i
    → i ≤ n
    → load n v ≤ capacity
    → in_all weight n (visit_view capacity i v) ≡ in_all weight n v
visit-in_all weight capacity n i v lo hi fit =
    visit_slot-in_all weight capacity n i v (v.slot i) lo hi refl
      (λ e f. paused_room capacity n i v e lo hi fit f)

-- a visit frees packets and takes none back
freed-visit_slot :
    (capacity i : ℕ) (v : View) (x : Slot)
    → of_freed (λ _. 1) v.freed ≤ of_freed (λ _. 1) (visit_slot capacity i v x).freed
unfolding of_freed
freed-visit_slot capacity i v free = rw (freed-assign (λ _. 1) i v v.queue) (omega arith)
freed-visit_slot capacity i v (busy e) = omega arith
freed-visit_slot capacity i v (done e) =
    rw
      (freed-assign (λ _. 1) i (record v { slot = update v.slot i free; freed = e.mbuf ∷ v.freed })
        v.queue)
      (omega arith)
freed-visit_slot capacity i v (paused e) =
    rw
      (freed-assign (λ _. 1) i
        (record v { slot = update v.slot i free; queue = Fifo.enqueue capacity v.queue e })
        (Fifo.enqueue capacity v.queue e))
      (omega arith)

pub visit-load :
    (capacity n i : ℕ) (v : View)
    → 1 ≤ i
    → i ≤ n
    → load n v ≤ capacity
    → load n (visit_view capacity i v) ≤ capacity
visit-load capacity n i v lo hi fit = omega (
  arith,
  visit-in_all (λ _. 1) capacity n i v lo hi fit,
  freed-visit_slot capacity i v (v.slot i),
)

dispatch_view-in_all :
    (weight : Ptr → ℕ) (capacity n k i : ℕ) (v : View)
    → 1 ≤ i
    → i + k ≤ n + 1
    → load n v ≤ capacity
    → in_all weight n (dispatch_view capacity k i v) ≡ in_all weight n v
unfolding dispatch_view
dispatch_view-in_all weight capacity n zero i v lo hi fit = refl
dispatch_view-in_all weight capacity n (suc k) i v lo hi fit =
    dispatch_view-in_all weight capacity n k (i + 1) (visit_view capacity i v) (omega arith)
      (omega arith) (visit-load capacity n i v lo (omega arith) fit)
    ∙ visit-in_all weight capacity n i v lo (omega arith) fit

-- While the queue and the workers hold no more requests than the task pool has items, a round of
-- `Dispatcher::dispatch` conserves the packets: what a weight of packets adds up to over the queue,
-- the workers and the freed packets is the same before and after. (A weight that is 1 at one packet
-- and 0 elsewhere counts that packet.)
pub dispatch-in_all :
    (weight : Ptr → ℕ) (capacity n cur : ℕ) (taken : ℕ → Bool) (s : State) (v : View)
    → IsView capacity n taken s v
    → load n v ≤ capacity
    → (v' : View) × IsView capacity n taken (dispatch n cur s) v'
      × (in_all weight n v' ≡ in_all weight n v)
dispatch-in_all weight capacity n cur taken s v r fit = (
  dispatch_view capacity n 1 v,
  dispatch-IsView capacity n taken cur s v r,
  dispatch_view-in_all weight capacity n n 1 v (omega arith) (omega arith) fit,
)
