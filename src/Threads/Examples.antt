-- ===== src/Threads/Examples.antt =====
-- A worker that was launched and whose thread has started.
use psp.Base.{true, false, refl}
use psp.Threads.{
  Thread, absent, setting_up, looping, idle, reads_started, done, refused, again, minus_one, Reach,
  made, later, spawn, setup_ok, starts, sees_started, runs_on,
}
use psp.Threads.Launched.{Returns, Launched, launch-result, launch-never_stuck}

abbrev fresh : Thread
fresh = record {
  worker_id = 0;
  eal_thread = false;
  joinable = false;
  started = false;
  exited = false;
  terminate = false;
  body = absent;
  launch = idle;
}

abbrev waiting : Thread
waiting = record fresh { joinable = true; body = setting_up; launch = reads_started }

waiting-Reach : Reach 0 false waiting
waiting-Reach = later (made {t = fresh} refl) (spawn refl refl refl)

abbrev launched : Thread
launched = record waiting { body = looping; started = true; launch = done 0 }

launched-Reach : Reach 0 false launched
launched-Reach =
    later
      (later (later (later waiting-Reach (setup_ok refl)) (starts refl)) (sees_started refl refl))
      (runs_on refl refl)

-- the thread is launched again
launched-twice : Reach 0 false (record launched { launch = refused })
launched-twice = later launched-Reach (again 0 refl refl)

launch-result_example : Launched (record launched { launch = refused }) minus_one
launch-result_example = launch-result minus_one launched-twice refl

launch-never_stuck_example : Returns waiting
launch-never_stuck_example = launch-never_stuck waiting-Reach tt
