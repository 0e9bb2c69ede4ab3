-- ===== src/Threads/Consistent.antt =====
-- What the flags of a worker tell `launch`, whatever the order of the steps.
use psp.Base.{ℕ, Bool, true, false, ◌≡◌, ◌≢◌, refl, ◌⊎◌, inl, inr, arith}
use mathlib.Core.Path.{sym, ◌∙◌, subst}
use psp.Threads.{
  Body, absent, setting_up, set_up, failed, looping, leaving, returned, crashed, Launch, idle,
  reads_started, reads_exited, checks_exited, checks_started, done, aborted, refused, minus_one,
  Thread, Step, Reach, again, spawn, remote_launch, eal_error, sees_started, misses_started,
  sees_exited, sleeps, runs_on, has_left, was_started, never_started, setup_ok, setup_error,
  gives_up, starts, round, work_error, ends, exits, stop, made, later,
}

-- what the flags are while `main_loop` stands somewhere
abbrev pub Flags : Body → (started exited : Bool) → Type 0
Flags absent s e = (s ≡ false) × (e ≡ false)
Flags setting_up s e = (s ≡ false) × (e ≡ false)
Flags set_up s e = (s ≡ false) × (e ≡ false)
Flags failed s e = (s ≡ false) × (e ≡ false)
Flags looping s e = (s ≡ true) × (e ≡ false)
Flags leaving s e = (s ≡ true) × (e ≡ false)
Flags returned s e = e ≡ true
Flags crashed s e = (s ≡ true) × (e ≡ false)

-- what `launch` has learnt
abbrev pub Learnt : Launch → (started exited : Bool) → Body → Type 0
Learnt idle s e b = b ≡ absent
Learnt reads_started s e b = b ≢ absent
Learnt reads_exited s e b = b ≢ absent
Learnt checks_exited s e b = (s ≡ true) ⊎ (e ≡ true)
Learnt checks_started s e b = e ≡ true
Learnt (done n) s e b =
    ((n ≡ 0) × (s ≡ true)) ⊎ ((n ≡ minus_one) × (e ≡ true) × (s ≡ false) × (b ≡ returned))
Learnt aborted s e b = b ≡ absent
Learnt refused s e b = (s ≡ true) ⊎ (e ≡ true)

pub record IsConsistent (t : Thread) : Type 0 where
  pub flags : Flags t.body t.started t.exited
  pub learnt : Learnt t.launch t.started t.exited t.body
  pub fresh : t.launch ≡ idle → t.joinable ≡ false
  pub no_start : t.launch ≡ idle → t.body ≡ absent
  pub twice : t.launch ≡ refused → t.joinable ≡ true

-- the thread moves on, and no flag is reset
Learnt-moves :
    (l : Launch) (s e s' e' : Bool) (b b' : Body)
    → b ≢ absent
    → b ≢ returned
    → b' ≢ absent
    → (s ≡ true → s' ≡ true)
    → (s ≡ false → e ≡ true → s' ≡ false)
    → (e ≡ true → e' ≡ true)
    → Learnt l s e b
    → Learnt l s' e' b'
Learnt-moves idle s e s' e' b b' here not_done there ups keeps upe h = absurd (here h)
Learnt-moves reads_started s e s' e' b b' here not_done there ups keeps upe h = there
Learnt-moves reads_exited s e s' e' b b' here not_done there ups keeps upe h = there
Learnt-moves checks_exited s e s' e' b b' here not_done there ups keeps upe (inl p) = inl (ups p)
Learnt-moves checks_exited s e s' e' b b' here not_done there ups keeps upe (inr p) = inr (upe p)
Learnt-moves checks_started s e s' e' b b' here not_done there ups keeps upe h = upe h
Learnt-moves (done n) s e s' e' b b' here not_done there ups keeps upe (inl p) = inl (p.0, ups p.1)
Learnt-moves (done n) s e s' e' b b' here not_done there ups keeps upe (inr p) =
    absurd (not_done p.3)
Learnt-moves refused s e s' e' b b' here not_done there ups keeps upe (inl p) = inl (ups p)
Learnt-moves refused s e s' e' b b' here not_done there ups keeps upe (inr p) = inr (upe p)
Learnt-moves aborted s e s' e' b b' here not_done there ups keeps upe h = absurd (here h)

-- a step of `main_loop` from a place inside it
moved :
    (t : Thread) (b b' : Body) (s' e' : Bool)
    → t.body ≡ b
    → b ≢ absent
    → b ≢ returned
    → b' ≢ absent
    → (t.started ≡ true → s' ≡ true)
    → (t.started ≡ false → t.exited ≡ true → s' ≡ false)
    → (t.exited ≡ true → e' ≡ true)
    → Flags b' s' e'
    → IsConsistent t
    → IsConsistent (record t { body = b'; started = s'; exited = e' })
moved t b b' s' e' at here not_done there ups keeps upe flags c = record {
  flags = flags;
  learnt =
      Learnt-moves t.launch t.started t.exited s' e' t.body b' (λ p. here (sym at ∙ p))
        (λ p. not_done (sym at ∙ p)) there ups keeps upe c.learnt;
  fresh = c.fresh;
  no_start = λ p. absurd (here (sym at ∙ c.no_start p));
  twice = c.twice;
}

-- a step of `launch` after which the thread was started
waits :
    (t : Thread) (l : Launch)
    → l ≢ idle
    → (l ≡ refused → t.joinable ≡ true)
    → Learnt l t.started t.exited t.body
    → IsConsistent t
    → IsConsistent (record t { launch = l })
waits t l busy twice learnt c = record {
  flags = c.flags;
  learnt = learnt;
  fresh = λ p. absurd (busy p);
  no_start = λ p. absurd (busy p);
  twice = twice;
}

-- the thread is about to run
begins :
    (t : Thread) (joinable : Bool)
    → t.launch ≡ idle
    → IsConsistent t
    → IsConsistent (record t { launch = reads_started; body = setting_up; joinable = joinable })
begins t joinable at c = record {
  flags = subst (λ b. Flags b t.started t.exited) (c.no_start at) c.flags;
  learnt = λ p. ground arith;
  fresh = λ p. ground arith;
  no_start = λ p. ground arith;
  twice = λ p. ground arith;
}

pub known :
    (t : Thread) (l : Launch) → t.launch ≡ l → IsConsistent t → Learnt l t.started t.exited t.body
known t l at c = subst (λ k. Learnt k t.started t.exited t.body) at c.learnt

pub Flags-at : (t : Thread) (b : Body) → t.body ≡ b → IsConsistent t → Flags b t.started t.exited
Flags-at t b at c = subst (λ k. Flags k t.started t.exited) at c.flags

pub either : {s e : Bool} → (s ≡ true) ⊎ (e ≡ true) → e ≡ false → s ≡ true
either (inl p) no_exit = p
either (inr q) no_exit = cc

exited_only : (b : Body) (s e : Bool) → Flags b s e → e ≡ true → s ≡ false → b ≡ returned
exited_only absent s e h p q = cc (h.1)
exited_only setting_up s e h p q = cc (h.1)
exited_only set_up s e h p q = cc (h.1)
exited_only failed s e h p q = cc (h.1)
exited_only looping s e h p q = cc (h.1)
exited_only leaving s e h p q = cc (h.1)
exited_only returned s e h p q = refl
exited_only crashed s e h p q = cc (h.1)

flag_known :
    (status : ℕ) (s e : Bool) (b : Body) → Learnt (done status) s e b → (s ≡ true) ⊎ (e ≡ true)
flag_known status s e b (inl p) = inl p.1
flag_known status s e b (inr p) = inr p.1

pub Step-IsConsistent : {t u : Thread} → Step t u → IsConsistent t → IsConsistent u
Step-IsConsistent {t} (again status at joinable) c =
    waits t refused (λ p. cc) (λ p. joinable)
      (flag_known status t.started t.exited t.body (known t (done status) at c)) c
Step-IsConsistent {t} (spawn at free eal) c = begins t true at c
Step-IsConsistent {t} (remote_launch at free eal) c = begins t t.joinable at c
Step-IsConsistent {t} (eal_error at free eal) c =
    waits t aborted (λ p. cc) (λ p. cc) (c.no_start at) c
Step-IsConsistent {t} (sees_started at s) c = waits t checks_exited (λ p. cc) (λ p. cc) (inl s) c
Step-IsConsistent {t} (misses_started at s) c =
    waits t reads_exited (λ p. cc) (λ p. cc) (known t reads_started at c) c
Step-IsConsistent {t} (sees_exited at e) c = waits t checks_exited (λ p. cc) (λ p. cc) (inr e) c
Step-IsConsistent {t} (sleeps at e) c =
    waits t reads_started (λ p. cc) (λ p. cc) (known t reads_exited at c) c
Step-IsConsistent {t} (runs_on at e) c =
    waits t (done 0) (λ p. cc) (λ p. cc) (inl (refl, either (known t checks_exited at c) e)) c
Step-IsConsistent {t} (has_left at e) c = waits t checks_started (λ p. cc) (λ p. cc) e c
Step-IsConsistent {t} (was_started at s) c = waits t (done 0) (λ p. cc) (λ p. cc) (inl (refl, s)) c
Step-IsConsistent {t} (never_started at s) c =
    waits t (done minus_one) (λ p. cc) (λ p. cc)
      (inr (
        refl,
        known t checks_started at c,
        s,
        exited_only t.body t.started t.exited c.flags (known t checks_started at c) s,
      ))
      c
Step-IsConsistent {t} (setup_ok at) c =
    moved t setting_up set_up t.started t.exited at (λ p. cc) (λ p. cc) (λ p. cc) (λ p. p)
      (λ p q. p) (λ p. p) (Flags-at t setting_up at c) c
Step-IsConsistent {t} (setup_error at) c =
    moved t setting_up failed t.started t.exited at (λ p. cc) (λ p. cc) (λ p. cc) (λ p. p)
      (λ p q. p) (λ p. p) (Flags-at t setting_up at c) c
Step-IsConsistent {t} (gives_up at) c =
    moved t failed returned t.started true at (λ p. cc) (λ p. cc) (λ p. cc) (λ p. p) (λ p q. p)
      (λ p. refl) refl c
Step-IsConsistent {t} (starts at) c =
    moved t set_up looping true t.exited at (λ p. cc) (λ p. cc) (λ p. cc) (λ p. refl)
      (λ p q. absurd (cc ((Flags-at t set_up at c).1))) (λ p. p) (refl, (Flags-at t set_up at c).1)
      c
Step-IsConsistent {t} (round at go) c = c
Step-IsConsistent {t} (work_error at go id) c =
    moved t looping crashed t.started t.exited at (λ p. cc) (λ p. cc) (λ p. cc) (λ p. p) (λ p q. p)
      (λ p. p) (Flags-at t looping at c) c
Step-IsConsistent {t} (ends at go) c =
    moved t looping leaving t.started t.exited at (λ p. cc) (λ p. cc) (λ p. cc) (λ p. p) (λ p q. p)
      (λ p. p) (Flags-at t looping at c) c
Step-IsConsistent {t} (exits at) c =
    moved t leaving returned t.started true at (λ p. cc) (λ p. cc) (λ p. cc) (λ p. p) (λ p q. p)
      (λ p. refl) refl c
Step-IsConsistent {t} stop c = record {
  flags = c.flags;
  learnt = c.learnt;
  fresh = c.fresh;
  no_start = c.no_start;
  twice = c.twice;
}

pub Reach-IsConsistent : {id : ℕ} {eal : Bool} {t : Thread} → Reach id eal t → IsConsistent t
Reach-IsConsistent (made e) = subst IsConsistent (sym e) (record {
  flags = (refl, refl);
  learnt = refl;
  fresh = λ p. refl;
  no_start = λ p. refl;
  twice = λ p. ground arith;
})
Reach-IsConsistent (later r step) = Step-IsConsistent step (Reach-IsConsistent r)
