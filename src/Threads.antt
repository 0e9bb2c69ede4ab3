-- ===== src/Threads.antt =====
-- src/c++/libos/common/Worker.cc: the life of a worker's thread. `launch` waits for the flags that
-- `main_loop` sets in another thread; each read and write of a flag is a step. What a worker does in a
-- round of its loop is left to Scheduler and NetWorker: here only the status of `work` counts. A second
-- call of `launch` for an EAL worker, which starts `main_loop` anew, is left out.
mod Examples
pub mod Consistent
pub mod Launched
use psp.Base.{ℕ, Bool, true, false, Option, none, some, ◌≡◌}

-- where `main_loop` stands
pub data Body : Type 0 where
  absent : Body  -- before the thread
  setting_up : Body  -- in `setup`
  set_up : Body  -- `setup` returned 0
  failed : Body  -- `setup` returned an error
  looping : Body  -- at the test of `terminate`
  leaving : Body  -- behind the loop
  returned : Body
  crashed : Body  -- returned from the loop of the net worker after an error of `work`

-- where `launch` stands
pub data Launch : Type 0 where
  idle : Launch  -- not called
  reads_started : Launch  -- `while (!started && ...`
  reads_exited : Launch  -- `... && !exited)`
  checks_exited : Launch  -- `if (exited && ...`
  checks_started : Launch  -- `... && !started)`
  done : (status : ℕ) → Launch  -- returned; `-1` as an `int`, in two's complement
  aborted : Launch  -- `psp_fail` from `PSP_OK`
  refused : Launch  -- a call after the first one has returned -1

abbrev pub minus_one : ℕ
minus_one = 4294967295

-- the flags of a `Worker`, and what runs
pub record Thread : Type 0 where
  pub worker_id : ℕ
  pub eal_thread : Bool
  pub joinable : Bool
  pub started : Bool
  pub exited : Bool
  pub terminate : Bool
  pub body : Body
  pub launch : Launch

-- the status that the last call of `launch` returned
abbrev pub result : Launch → Option ℕ
result (done status) = some status
result refused = some minus_one
result l = none

pub data Step (t : Thread) : Thread → Type 0 where
  -- `launch` up to the start of the thread; a thread that was launched before is joinable
  again :
      (status : ℕ)
      → t.launch ≡ done status
      → t.joinable ≡ true
      → Step t (record t { launch = refused })
  spawn :
      t.launch ≡ idle
      → t.joinable ≡ false
      → t.eal_thread ≡ false
      → Step t (record t { launch = reads_started; body = setting_up; joinable = true })
  remote_launch :
      t.launch ≡ idle
      → t.joinable ≡ false
      → t.eal_thread ≡ true
      → Step t (record t { launch = reads_started; body = setting_up })
  eal_error :
      t.launch ≡ idle
      → t.joinable ≡ false
      → t.eal_thread ≡ true
      → Step t (record t { launch = aborted })
  -- the wait of `launch`
  sees_started :
      t.launch ≡ reads_started → t.started ≡ true → Step t (record t { launch = checks_exited })
  misses_started :
      t.launch ≡ reads_started → t.started ≡ false → Step t (record t { launch = reads_exited })
  sees_exited :
      t.launch ≡ reads_exited → t.exited ≡ true → Step t (record t { launch = checks_exited })
  sleeps : t.launch ≡ reads_exited → t.exited ≡ false → Step t (record t { launch = reads_started })
  runs_on : t.launch ≡ checks_exited → t.exited ≡ false → Step t (record t { launch = done 0 })
  has_left :
      t.launch ≡ checks_exited → t.exited ≡ true → Step t (record t { launch = checks_started })
  was_started : t.launch ≡ checks_started → t.started ≡ true → Step t (record t { launch = done 0 })
  never_started :
      t.launch ≡ checks_started → t.started ≡ false → Step t (record t { launch = done minus_one })
  -- `main_loop`
  setup_ok : t.body ≡ setting_up → Step t (record t { body = set_up })
  setup_error : t.body ≡ setting_up → Step t (record t { body = failed })
  gives_up : t.body ≡ failed → Step t (record t { body = returned; exited = true })
  starts : t.body ≡ set_up → Step t (record t { body = looping; started = true })
  round : t.body ≡ looping → t.terminate ≡ false → Step t t
  work_error :
      t.body ≡ looping
      → t.terminate ≡ false
      → t.worker_id ≡ 0
      → Step t (record t { body = crashed })
  ends : t.body ≡ looping → t.terminate ≡ true → Step t (record t { body = leaving })
  exits : t.body ≡ leaving → Step t (record t { body = returned; exited = true })
  -- `stop`, from any thread
  stop : Step t (record t { terminate = true })

-- a worker that was made, and what may follow
pub data Reach (id : ℕ) (eal : Bool) : Thread → Type 0 where
  made :
      {t : Thread}
      → t ≡ record {
        worker_id = id;
        eal_thread = eal;
        joinable = false;
        started = false;
        exited = false;
        terminate = false;
        body = absent;
        launch = idle;
      }
      → Reach id eal t
  later : {t u : Thread} → Reach id eal t → Step t u → Reach id eal u

-- steps one after another
pub data Leads : Thread → Thread → Type 0 where
  stays : {t : Thread} → Leads t t
  moves : {t u v : Thread} → Step t u → Leads u v → Leads t v
