-- ===== src/Scheduler/Steps.antt =====
-- What the steps of a worker do to the dispatcher's view.
use psp.Base.{
  ℕ, Ptr, ◌≤◌, ◌≡◌, inl, inr, refl, sym, ap, ◌∙◌, Bool, true, false, arith, if◌then◌else◌, update,
  update_self, update_ne,
}
use mathlib.Core.Bool.{true≢false}
use psp.TaskQueue.{Item}
use psp.Scheduler.{
  Cell, State, waiting, active, finished, preempted, context, resume, has_ended, take_request,
  enter, finish_request, run_request,
}
use psp.Scheduler.View.{Slot, free, busy, done, paused, View, Shows, IsView}
use psp.Scheduler.Visit.{Shows-update}
use psp.Scheduler.Conserve.{in_all, in_flight, of_slot, load, of_slots-update}
use psp.Scheduler.Work.{handed_back}

-- the cell that a worker reports in, and the place that it then has
abbrev report : Bool → Item → Cell
report ended e = record { flag = if ended then finished else preempted; item = e }

abbrev pub reported : Bool → Item → Slot
reported true e = done e
reported false e = paused e

module _ (now : ℕ) (small : Ptr → Bool) (i : ℕ) (uctx_main : Ptr) (s : State) where
  abbrev ran : State
  ran = run_request now small i uctx_main s

  -- whether the context that the worker runs comes to its end
  abbrev pub ends : Bool
  ends =
      let s' = enter now i uctx_main s in
      has_ended (resume (s'.point (s'.requests i).item.runnable))

  pub responses-run : ran.responses ≡ update s.responses i (report ends (handed_back s i))
  unfolding run_request enter finish_request
  responses-run = ground arith

  pub requests-run : ran.requests ≡ s.requests
  unfolding run_request enter finish_request
  requests-run = ground arith

  tskq-run : ran.tskq ≡ s.tskq
  unfolding run_request enter finish_request
  tskq-run = ground arith

  tasks-run : ran.tasks ≡ s.tasks
  unfolding run_request enter finish_request
  tasks-run = ground arith

  freed-run : ran.freed ≡ s.freed
  unfolding run_request enter finish_request
  freed-run = ground arith

-- a new place for one worker
abbrev pub place : ℕ → Slot → View → View
place i x v = record v { slot = update v.slot i x }

-- that holds the packet of the old one
pub place-in_all :
    (weight : Ptr → ℕ) (n i : ℕ) (v : View) (x : Slot)
    → 1 ≤ i
    → i ≤ n
    → of_slot weight (v.slot i) ≡ of_slot weight x
    → in_all weight n (place i x v) ≡ in_all weight n v
unfolding in_flight
place-in_all weight n i v x lo hi same =
    omega (arith, of_slots-update weight n i v.slot x lo hi, same)

pub place-load :
    (n i : ℕ) (v : View) (x : Slot)
    → 1 ≤ i
    → i ≤ n
    → of_slot (λ _. 1) (v.slot i) ≡ of_slot (λ _. 1) x
    → load n (place i x v) ≡ load n v
unfolding in_flight
place-load n i v x lo hi same = omega (arith, of_slots-update (λ _. 1) n i v.slot x lo hi, same)

-- a worker that can take a request has one
pub taker :
    (response request : Cell) (taken : Bool) (x : Slot)
    → Shows response request taken x
    → request.flag ≡ active
    → (e : Item) × (x ≡ busy e) × Shows response request taken (busy e)
taker response request taken free h on = absurd (omega (arith, h.1, on))
taker response request taken (busy e) h on = (e, refl, h)
taker response request taken (done e) h on = absurd (omega (arith, h.2, on))
taker response request taken (paused e) h on = absurd (omega (arith, h.2, on))

-- and so has one that runs
pub runner :
    (response request : Cell) (taken : Bool) (x : Slot)
    → Shows response request taken x
    → taken ≡ true
    → (e : Item) × (x ≡ busy e) × (request.item ≡ e) × (request.flag ≡ waiting)
runner response request taken free h on = absurd (true≢false (sym on ∙ h.2))
runner response request taken (busy e) h on = elim h.2 [
  | inl not_yet ↦ absurd (true≢false (sym on ∙ not_yet.1))
  | inr has ↦ (e, refl, h.1, has.0)
]
runner response request taken (done e) h on = absurd (true≢false (sym on ∙ h.3))
runner response request taken (paused e) h on = absurd (true≢false (sym on ∙ h.3))

reported-Shows :
    (ended : Bool) (e : Item) (request : Cell)
    → request.flag ≡ waiting
    → Shows (report ended e) request false (reported ended e)
reported-Shows true e request rest = (refl, refl, rest, refl)
reported-Shows false e request rest = (refl, refl, rest, refl)

of_slot-reported :
    (weight : Ptr → ℕ) (ended : Bool) (e : Item) → of_slot weight (reported ended e) ≡ weight e.mbuf
unfolding of_slot
of_slot-reported weight true e = refl
of_slot-reported weight false e = refl

-- a report is about the packet of the request that ran
pub same-reported :
    (weight : Ptr → ℕ) (ended : Bool) (x : Slot) (e d : Item)
    → x ≡ busy e
    → d ≡ e
    → of_slot weight x ≡ of_slot weight (reported ended (record d { category = context }))
unfolding of_slot
same-reported weight ended x e d at it =
    ap (of_slot weight) at
    ∙ (ap (λ (y : Item). weight y.mbuf) (sym it)
        ∙ sym (of_slot-reported weight ended (record d { category = context })))

module _ (capacity n : ℕ) where
  pub take-IsView :
      (i : ℕ) (taken : ℕ → Bool) (s : State) (v : View) (e : Item)
      → Shows (s.responses i) (s.requests i) (taken i) (busy e)
      → IsView capacity n taken s v
      → IsView capacity n (update taken i true) (take_request i s) (place i (busy e) v)
  unfolding take_request
  take-IsView i taken s v e h r = record {
    queue = r.queue;
    slots =
        Shows-update s.responses s.responses s.requests (take_request i s).requests v.slot taken
          (update taken i true) i (busy e) n (λ j ne. refl) (λ j ne. update_ne s.requests i _ j ne)
          (λ j ne. update_ne taken i true j ne)
          (
            h.0,
            ap (λ (c : Cell). c.item) (update_self s.requests i _) ∙ h.1,
            inr (ap (λ (c : Cell). c.flag) (update_self s.requests i _), update_self taken i true),
          )
          r.slots;
    freed = r.freed;
  }

  pub run-IsView :
      (now : ℕ) (small : Ptr → Bool) (i : ℕ) (uctx_main : Ptr) (taken : ℕ → Bool) (s : State)
      (v : View)
      → (s.requests i).flag ≡ waiting
      → IsView capacity n taken s v
      → IsView capacity n
          (update taken i false)
          (run_request now small i uctx_main s)
          (place i (reported (ends now small i uctx_main s) (handed_back s i)) v)
  run-IsView now small i uctx_main taken s v rest r = record {
    queue = rw (tskq-run now small i uctx_main s, tasks-run now small i uctx_main s) r.queue;
    slots =
        rw (responses-run now small i uctx_main s, requests-run now small i uctx_main s)
          (Shows-update s.responses (update s.responses i _) s.requests s.requests v.slot taken
            (update taken i false) i _ n (λ j ne. update_ne s.responses i _ j ne) (λ j ne. refl)
            (λ j ne. update_ne taken i false j ne)
            (rw
              (
                update_self s.responses i (report (ends now small i uctx_main s) (handed_back s i)),
                update_self taken i false,
              )
              (reported-Shows _ _ _ rest))
            r.slots);
    freed = freed-run now small i uctx_main s ∙ r.freed;
  }
