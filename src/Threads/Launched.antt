-- ===== src/Threads/Launched.antt =====
-- What the result of `launch` says about the thread.
use psp.Base.{ℕ, some, Bool, true, false, ◌≡◌, ◌≢◌, refl, ◌⊎◌, inl, inr, arith, Bool-cases}
use mathlib.Core.Path.{sym, subst}
use psp.Threads.{
  Body, absent, setting_up, set_up, failed, looping, leaving, returned, crashed, Launch, idle,
  reads_started, reads_exited, checks_exited, checks_started, done, aborted, refused, result,
  minus_one, Thread, Reach, Leads, sees_started, misses_started, sees_exited, sleeps, runs_on,
  has_left, was_started, never_started, setup_ok, gives_up, starts, stays, moves,
}
use psp.Threads.Consistent.{
  Flags, Learnt, IsConsistent, known, Flags-at, either, Step-IsConsistent, Reach-IsConsistent,
}

-- what a status that `launch` returned says of the thread
abbrev pub Launched : Thread → ℕ → Type 0
Launched t status =
    ((status ≡ 0) × (t.started ≡ true))
    ⊎ (((status ≡ minus_one) × (t.exited ≡ true) × (t.started ≡ false) × (t.body ≡ returned))
        ⊎ ((status ≡ minus_one)
            × (t.launch ≡ refused)
            × (t.joinable ≡ true)
            × ((t.started ≡ true) ⊎ (t.exited ≡ true))))

first_result :
    (status : ℕ) (t : Thread) → Learnt (done status) t.started t.exited t.body → Launched t status
first_result status t (inl p) = inl p
first_result status t (inr p) = inr (inl p)

-- When a call of `launch` returns, for any interleaving of its reads with the steps of `main_loop` and
-- calls of `stop`, one of three holds: it returned 0 and the thread has been set up and started; or it
-- returned -1 and the thread has returned and never started; or it returned -1 as a further call for a
-- worker with a thread of its own, whose first call has returned. (A further call for an EAL worker is
-- left out.)
pub launch-result :
    {id : ℕ} {eal : Bool} {t : Thread} (status : ℕ)
    → Reach id eal t
    → result t.launch ≡ some status
    → Launched t status
launch-result {t = t} status r is = go t.launch refl is
  where
    go : (l : Launch) → t.launch ≡ l → result l ≡ some status → Launched t status
    go idle at e = ground arith
    go reads_started at e = ground arith
    go reads_exited at e = ground arith
    go checks_exited at e = ground arith
    go checks_started at e = ground arith
    go (done n) at e =
        let same : n ≡ status = cc e in
        subst (Launched t) same (first_result n t (known t (done n) at (Reach-IsConsistent r)))
    go aborted at e = ground arith
    go refused at e =
        let same : minus_one ≡ status = cc e in
        let c = Reach-IsConsistent r in inr (inr (sym same, at, c.twice at, known t refused at c))

-- A net worker whose thread has left its loop after an error of `work` is not reported as exited.
pub crashed-not_exited :
    {id : ℕ} {eal : Bool} {t : Thread} → Reach id eal t → t.body ≡ crashed → t.exited ≡ false
crashed-not_exited {t = t} r at = (Flags-at t crashed at (Reach-IsConsistent r)).1

-- what the result of `launch` will be
abbrev pub Returns : Thread → Type 0
Returns t = (u : Thread) × Leads t u × (status : ℕ) × (u.launch ≡ done status)

from_checks_started : (t : Thread) → t.launch ≡ checks_started → Returns t
from_checks_started t at = elim (Bool-cases t.started) [
  | inl s ↦ (record t { launch = done 0 }, moves (was_started at s) stays, 0, refl)
  | inr n ↦
      (record t { launch = done minus_one }, moves (never_started at n) stays, minus_one, refl)
]

from_checks_exited : (t : Thread) → t.launch ≡ checks_exited → Returns t
from_checks_exited t at = elim (Bool-cases t.exited) [
  | inl e ↦
      let (u, steps, status, is) =
        from_checks_started (record t { launch = checks_started }) refl in
      (u, moves (has_left at e) steps, status, is)
  | inr n ↦ (record t { launch = done 0 }, moves (runs_on at n) stays, 0, refl)
]

-- `launch` that reads `started` returns by its own steps when a flag is set
launch-Returns :
    (t : Thread) → t.launch ≡ reads_started → (t.started ≡ true) ⊎ (t.exited ≡ true) → Returns t
launch-Returns t at flag = elim (Bool-cases t.started) [
  | inl s ↦
      let (u, steps, status, is) = from_checks_exited (record t { launch = checks_exited }) refl in
      (u, moves (sees_started at s) steps, status, is)
  | inr n ↦
      let e : t.exited ≡ true = either (swap flag) n in
      let (u, steps, status, is) = from_checks_exited (record t { launch = checks_exited }) refl in
      (u, moves (misses_started at n) (moves (sees_exited refl e) steps), status, is)
]
  where
    swap : {a b : Bool} → (a ≡ true) ⊎ (b ≡ true) → (b ≡ true) ⊎ (a ≡ true)
    swap (inl p) = inr p
    swap (inr q) = inl q

-- what is left before a flag is set
abbrev Flagged : Thread → Type 0
Flagged t =
    (u : Thread) × Leads t u × (u.launch ≡ reads_started) × ((u.started ≡ true) ⊎ (u.exited ≡ true))

-- `main_loop` that began sets a flag by its own steps, and leaves `launch` where it is
flag_set :
    (t : Thread) (b : Body)
    → t.body ≡ b
    → b ≢ absent
    → Flags b t.started t.exited
    → t.launch ≡ reads_started
    → Flagged t
flag_set t absent is began h at = absurd (began refl)
flag_set t setting_up is began h at = (
  record t { body = looping; started = true },
  moves (setup_ok is) (moves (starts refl) stays),
  at,
  inl refl,
)
flag_set t set_up is began h at =
    (record t { body = looping; started = true }, moves (starts is) stays, at, inl refl)
flag_set t failed is began h at =
    (record t { body = returned; exited = true }, moves (gives_up is) stays, at, inr refl)
flag_set t looping is began h at = (t, stays, at, inl h.0)
flag_set t leaving is began h at = (t, stays, at, inl h.0)
flag_set t returned is began h at = (t, stays, at, inr h)
flag_set t crashed is began h at = (t, stays, at, inl h.0)

Leads-trans : {t u v : Thread} → Leads t u → Leads u v → Leads t v
Leads-trans stays rest = rest
Leads-trans (moves step steps) rest = moves step (Leads-trans steps rest)

from_reads_started : (t : Thread) → IsConsistent t → t.launch ≡ reads_started → Returns t
from_reads_started t c at =
    let (u, steps, still, flag) = flag_set t t.body refl (known t reads_started at c) c.flags at in
    let (v, more, status, is) = launch-Returns u still flag in
    (v, Leads-trans steps more, status, is)

-- `launch` between its start of the thread and its return
abbrev pub IsWaiting : Launch → Type 0
IsWaiting idle = ⊥
IsWaiting (done n) = ⊥
IsWaiting aborted = ⊥
IsWaiting refused = ⊥
IsWaiting l = Unit

-- `launch` is never stuck: from every state in which it waits for the thread, steps of the two lead to
-- its return.
pub launch-never_stuck :
    {id : ℕ} {eal : Bool} {t : Thread} → Reach id eal t → IsWaiting t.launch → Returns t
launch-never_stuck {t = t} r waiting = go t.launch refl waiting
  where
    go : (l : Launch) → t.launch ≡ l → IsWaiting l → Returns t
    go idle at w = absurd w
    go reads_started at w = from_reads_started t (Reach-IsConsistent r) at
    go reads_exited at w = elim (Bool-cases t.exited) [
      | inl e ↦
          let (u, steps, status, is) =
            from_checks_exited (record t { launch = checks_exited }) refl in
          (u, moves (sees_exited at e) steps, status, is)
      | inr n ↦
          let (u, steps, status, is) =
            from_reads_started (record t { launch = reads_started })
              (Step-IsConsistent (sleeps at n) (Reach-IsConsistent r)) refl in
          (u, moves (sleeps at n) steps, status, is)
    ]
    go checks_exited at w = from_checks_exited t at
    go checks_started at w = from_checks_started t at
    go (done n) at w = absurd w
    go aborted at w = absurd w
    go refused at w = absurd w
