-- ===== src/Scheduler/Protocol.antt =====
-- The dispatcher's visits and the workers' steps in any order.
use psp.Base.{ℕ, Ptr, ◌≤◌, ◌≡◌, ap, ◌∙◌, Bool, true, false, update}
use psp.Scheduler.{State, active, visit, take_request, run_request}
use psp.Scheduler.View.{View, visit_view, IsView, busy}
use psp.Scheduler.Visit.{visit-IsView}
use psp.Scheduler.Conserve.{in_all, load, visit-in_all, visit-load, of_slot}
use psp.Scheduler.Work.{handed_back}
use psp.Scheduler.Steps.{
  ends, reported, place, place-in_all, place-load, taker, runner, take-IsView, run-IsView,
  same-reported,
}

-- the shared state, and which workers have taken a request and not reported it yet
pub record World : Type 0 where
  pub state : State
  pub taken : ℕ → Bool

-- One step with the workers 1 to `n`: the dispatcher visits a worker, or a worker that waits takes
-- a request, or a worker that has taken one runs it and reports.
pub data Step (n : ℕ) : World → World → Type 0 where
  visits :
      (w : World) (cur i : ℕ) → 1 ≤ i → i ≤ n → Step n w (record w { state = visit cur i w.state })
  takes :
      (w : World) (i : ℕ)
      → 1 ≤ i
      → i ≤ n
      → w.taken i ≡ false
      → (w.state.requests i).flag ≡ active
      → Step n w (record { state = take_request i w.state; taken = update w.taken i true })
  runs :
      (w : World) (now : ℕ) (small : Ptr → Bool) (i : ℕ) (uctx_main : Ptr)
      → 1 ≤ i
      → i ≤ n
      → w.taken i ≡ true
      → Step n w (record {
        state = run_request now small i uctx_main w.state;
        taken = update w.taken i false;
      })

pub data Reach (n : ℕ) (w : World) : World → Type 0 where
  here : Reach n w w
  next : {w' w'' : World} → Reach n w w' → Step n w' w'' → Reach n w w''

-- a view in which a weight of packets adds up to `total`
pub record Conserved (weight : Ptr → ℕ) (capacity n total : ℕ) (w : World) : Type 0 where
  pub view : View
  pub shown : IsView capacity n w.taken w.state view
  pub fits : load n view ≤ capacity
  pub all : in_all weight n view ≡ total

module _ {weight : Ptr → ℕ} {capacity n total : ℕ} where
  Step-Conserved :
      {w w' : World}
      → Step n w w'
      → Conserved weight capacity n total w
      → Conserved weight capacity n total w'
  Step-Conserved (visits w cur i lo hi) c = record {
    view = visit_view capacity i c.view;
    shown = visit-IsView capacity n w.taken cur i w.state c.view lo hi c.shown;
    fits = visit-load capacity n i c.view lo hi c.fits;
    all = visit-in_all weight capacity n i c.view lo hi c.fits ∙ c.all;
  }
  Step-Conserved (takes w i lo hi idle on) c =
      let (e, at, h) =
        taker (w.state.responses i) (w.state.requests i) (w.taken i) (c.view.slot i)
          (c.shown.slots i lo hi) on in
      record {
        view = place i (busy e) c.view;
        shown = take-IsView capacity n i w.taken w.state c.view e h c.shown;
        fits = rw (place-load n i c.view (busy e) lo hi (ap (of_slot (λ _. 1)) at)) c.fits;
        all = place-in_all weight n i c.view (busy e) lo hi (ap (of_slot weight) at) ∙ c.all;
      }
  Step-Conserved (runs w now small i uctx_main lo hi on) c =
      let (e, at, it, rest) =
        runner (w.state.responses i) (w.state.requests i) (w.taken i) (c.view.slot i)
          (c.shown.slots i lo hi) on in
      let x = reported (ends now small i uctx_main w.state) (handed_back w.state i) in
      record {
        view = place i x c.view;
        shown = run-IsView capacity n now small i uctx_main w.taken w.state c.view rest c.shown;
        fits =
            rw
              (place-load n i c.view x lo hi (
                same-reported (λ _. 1) (ends now small i uctx_main w.state) (c.view.slot i) e
                  (w.state.requests i).item at it))
              c.fits;
        all =
            place-in_all weight n i c.view x lo hi (
              same-reported weight (ends now small i uctx_main w.state) (c.view.slot i) e
                (w.state.requests i).item at it)
            ∙ c.all;
      }

  -- Whatever the order of the dispatcher's visits and the workers' steps, no packet is lost or
  -- doubled: while the queue and the workers hold no more requests than the task pool has items,
  -- what a weight of packets adds up to over the queue, the workers and the freed packets stays the
  -- same, and the cells keep showing a place for each worker. (A weight that is 1 at one packet
  -- and 0 elsewhere counts that packet.)
  pub Reach-Conserved :
      {w w' : World}
      → Reach n w w'
      → Conserved weight capacity n total w
      → Conserved weight capacity n total w'
  Reach-Conserved here c = c
  Reach-Conserved (next r st) c = Step-Conserved st (Reach-Conserved r c)
