-- ===== src/Workers/Find.antt =====
-- The functions that go over all workers.
use psp.Base.{
  ℕ, zero, suc, ◌+◌, ◌≤◌, ◌<◌, ◌≡◌, refl, sym, ap, ◌∙◌, true, inl, inr, Bool-cases, ltb, ltb→lt,
  not_ltb→le, Option, none, some, arith, update, update_self, update_ne, ok,
}
use mathlib.Core.Path.{subst}
use psp.Workers.{Globals, Worker, stop_from, stop_all}

-- a worker that was told to stop
abbrev pub stopped : Worker → Worker
stopped w = record w { terminate = true }

-- the workers from place `i` on were told to stop, and the other ones were not
pub record Stopped (left i : ℕ) (before after : ℕ → Option Worker) : Type 0 where
  pub told :
      (j : ℕ) (w : Worker) → i ≤ j → j < i + left → before j ≡ some w → after j ≡ some (stopped w)
  pub earlier : (j : ℕ) → j < i → after j ≡ before j
  pub later : (j : ℕ) → i + left ≤ j → after j ≡ before j

stop-step :
    (left i : ℕ) (w : Worker) (before after : ℕ → Option Worker)
    → before i ≡ some w
    → Stopped left (i + 1) (update before i (some (stopped w))) after
    → Stopped (suc left) i before after
stop-step left i w before after at h = record {
  told = λ j v lo hi is. elim (Bool-cases (ltb i j)) [
    | inl behind ↦
        let lt : i < j = ltb→lt i j behind in
        h.told j v (omega arith) (omega arith)
          (update_ne before i (some (stopped w)) j (λ e. omega (arith, e)) ∙ is)
    | inr here ↦
        let same : j ≡ i = omega (arith, not_ltb→le i j here) in
        subst (λ k. before k ≡ some v → after k ≡ some (stopped v)) (sym same)
          (λ is'.
            h.earlier i (omega arith)
            ∙ update_self before i (some (stopped w))
            ∙ ap (λ o. elim o [ none ↦ none | some u ↦ some (stopped u) ]) (sym at ∙ is'))
          is
  ];
  earlier = λ j lt.
      h.earlier j (omega arith) ∙ update_ne before i (some (stopped w)) j (λ e. omega (arith, e));
  later = λ j le.
      h.later j (omega arith) ∙ update_ne before i (some (stopped w)) j (λ e. omega (arith, e));
}

-- the places from `i` on have workers
abbrev pub Filled : (left i : ℕ) → (ℕ → Option Worker) → Type 0
Filled left i workers = (j : ℕ) → i ≤ j → j < i + left → (w : Worker) × (workers j ≡ some w)

stop_from-Stopped :
    (left i : ℕ) (workers : ℕ → Option Worker)
    → Filled left i workers
    → (after : ℕ → Option Worker) × (stop_from left i workers ≡ ok after)
      × Stopped left i workers after
unfolding stop_from
stop_from-Stopped zero i workers h = (
  workers,
  refl,
  record {
    told = λ j w lo hi is. absurd (omega arith);
    earlier = λ j lt. refl;
    later = λ j le. refl;
  },
)
stop_from-Stopped (suc left) i workers h =
    let (w, at) = h i (omega arith) (omega arith) in
    let (after, runs, stops) =
      stop_from-Stopped left (i + 1) (update workers i (some (stopped w))) (λ j lo hi.
        let (v, is) = h j (omega arith) (omega arith) in
        (v, update_ne workers i (some (stopped w)) j (λ e. omega (arith, e)) ∙ is)) in
    (after, rw (at, stop_from) runs, stop-step left i w workers after at stops)

-- `stop_all` tells every worker below `total_workers` to stop and leaves the other places and the rest
-- of the state as they are, when each of those places has a worker.
pub stop_all-Stopped :
    (s : Globals)
    → Filled s.total_workers 0 s.workers
    → (after : ℕ → Option Worker) × (stop_all s ≡ ok (record s { workers = after }))
      × Stopped s.total_workers 0 s.workers after
unfolding stop_all
stop_all-Stopped s h =
    let (after, runs, stops) = stop_from-Stopped s.total_workers 0 s.workers h in
    (after, rw runs refl, stops)
