-- ===== src/Scheduler/Starved.antt =====
-- Workers other than worker 1 are never given a request, since `init_worker` marks worker 1 whatever
-- worker runs it, and the flag that the others start with is `RUNNING`.
use psp.Base.{
  ℕ, ◌≡◌, ◌≢◌, refl, sym, ap, ◌∙◌, Bool-cases, inl, inr, true, false, arith, ◌==◌, update,
  update_ne,
}
use mathlib.Core.Bool.{true≢false}
use native.Mathlib.Decide.{ℕ_discrete}
use psp.Scheduler.{
  Cell, State, waiting, running, dispatch_request, handle_finished, handle_preempted, collect,
  visit, take_request, init_worker,
}
use psp.Scheduler.Steps.{responses-run, requests-run}
use psp.Scheduler.Protocol.{World, Step, visits, takes, runs, Reach, here, next}

-- the cells of a worker that the dispatcher takes for running, and that waits for a request
pub record IsStarved (i : ℕ) (w : World) : Type 0 where
  pub response : (w.state.responses i).flag ≡ running
  pub request : (w.state.requests i).flag ≡ waiting
  pub idle : w.taken i ≡ false

visit-running : (cur i : ℕ) (s : State) → (s.responses i).flag ≡ running → visit cur i s ≡ s
unfolding visit
visit-running cur i s h = rw h

module _ (i j : ℕ) (ne : j ≢ i) (s : State) where
  collect-others :
      ((collect i s).responses j ≡ s.responses j) × ((collect i s).requests j ≡ s.requests j)
  unfolding collect handle_finished handle_preempted update
  collect-others = ground arith

  dispatch_request-others :
      (cur : ℕ)
      → ((dispatch_request i cur s).responses j ≡ s.responses j)
        × ((dispatch_request i cur s).requests j ≡ s.requests j)
  unfolding dispatch_request update
  dispatch_request-others cur = ground arith

visit-others :
    (i j : ℕ)
    → j ≢ i
    → (cur : ℕ) (s : State)
    → ((visit cur i s).responses j ≡ s.responses j) × ((visit cur i s).requests j ≡ s.requests j)
unfolding visit
visit-others i j ne cur s = elim (Bool-cases ((s.responses i).flag == running)) [
  | inl busy ↦ rw busy (refl, refl)
  | inr idle ↦
      let given = dispatch_request-others i j ne (collect i s) cur in
      let before = collect-others i j ne s in rw idle (given.0 ∙ before.0, given.1 ∙ before.1)
]

-- a state in which the cells of the worker are those of a starved one
same_cells :
    (i : ℕ) (w w' : World)
    → w'.state.responses i ≡ w.state.responses i
    → w'.state.requests i ≡ w.state.requests i
    → w'.taken i ≡ w.taken i
    → IsStarved i w
    → IsStarved i w'
same_cells i w w' r q t h = record {
  response = ap (λ (c : Cell). c.flag) r ∙ h.response;
  request = ap (λ (c : Cell). c.flag) q ∙ h.request;
  idle = t ∙ h.idle;
}

Step-IsStarved : {n : ℕ} {w w' : World} (j : ℕ) → Step n w w' → IsStarved j w → IsStarved j w'
unfolding take_request
Step-IsStarved j (visits w cur i lo hi) h = elim (ℕ_discrete j i) [
  | yes e ↦
      same_cells j w (record w { state = visit cur i w.state })
        (ap (λ (s : State). s.responses j) (unmoved e))
        (ap (λ (s : State). s.requests j) (unmoved e)) refl h
  | no ne ↦
      let same = visit-others i j ne cur w.state in
      same_cells j w (record w { state = visit cur i w.state }) same.0 same.1 refl h
]
  where
    unmoved : j ≡ i → visit cur i w.state ≡ w.state
    unmoved e = visit-running cur i w.state (rw (← e) h.response)
Step-IsStarved j (takes w i lo hi idle on) h = elim (ℕ_discrete j i) [
  | yes e ↦ absurd (omega (arith, on, h.request, ap (λ k. (w.state.requests k).flag) e))
  | no ne ↦
      same_cells j w _ refl (update_ne w.state.requests i _ j ne) (update_ne w.taken i true j ne) h
]
Step-IsStarved j (runs w now small i uctx_main lo hi on) h = elim (ℕ_discrete j i) [
  | yes e ↦ absurd (true≢false (sym on ∙ (ap w.taken (sym e) ∙ h.idle)))
  | no ne ↦
      same_cells j w _
        (ap (λ (f : ℕ → Cell). f j) (responses-run now small i uctx_main w.state)
          ∙ update_ne w.state.responses i _ j ne)
        (ap (λ (f : ℕ → Cell). f j) (requests-run now small i uctx_main w.state))
        (update_ne w.taken i false j ne) h
]

Reach-IsStarved : {n : ℕ} {w w' : World} (j : ℕ) → Reach n w w' → IsStarved j w → IsStarved j w'
Reach-IsStarved j here h = h
Reach-IsStarved j (next r st) h = Step-IsStarved j st (Reach-IsStarved j r h)

-- A worker other than worker 1 whose two flags are 0, as global variables start, and that has
-- taken no request, is never given one: after `init_worker`, whatever the order of the steps, its
-- flags are still `RUNNING` and `WAITING` and it has taken none.
pub init_worker-IsStarved :
    {n : ℕ} {w w' : World} (j : ℕ)
    → j ≢ 1
    → IsStarved j w
    → Reach n (record w { state = init_worker w.state }) w'
    → IsStarved j w'
unfolding init_worker
init_worker-IsStarved {w} j other zero r = Reach-IsStarved j r (
    same_cells j w (record w { state = init_worker w.state })
      (update_ne w.state.responses 1 _ j other) refl refl zero)
