-- ===== src/Play/Examples.antt =====
-- Two requests, 1000 ns apart, with a limit of 2000 ns; the clock reads 500 ns more after each poll.
use psp.Base.{◌+◌, ◌*◌, ◌≡◌, refl, [], length, arith, pos, Stops}
use psp.ClientTypes.{psp_mb}
use psp.Client.Examples.{worker_3}
use psp.Play.{Schedule, Polls, play_schedule}
use psp.Play.Bounds.{Paced}
use psp.Play.Ends.{play_schedule-Paced}

abbrev two_requests : Schedule
two_requests = record {
  n_requests = 2;
  send_index = 0;
  recv_requests = 0;
  attempts = 0;
  ev_count = 0;
  n_skipped = 0;
  ptype = psp_mb;
  pkt_size = 16;
  send_times = λ k. 100 + k * 1000;
  n_times = 2;
  start_time = 0;
  end_time = 0;
  last_send_time = 0;
  max_duration = 2000;
  send_time_it = 0;
  next_send_time = 0;
}

abbrev silent : Polls
silent = λ k. ([], 300 + k * 500)

two_requests-Paced : Paced (pos 1) two_requests
two_requests-Paced = record {
  sent = omega arith;
  small = omega arith;
  received = omega arith;
  counted = refl;
  held = omega arith;
}

play_schedule-Paced_example :
    Stops
      (λ r. Paced (pos 1) r.0 × (r.0.n_requests ≡ 2))
      (play_schedule 1 length
        (λ c. 7)
        (λ c. 64)
        (pos 1)
        10
        silent
        200
        200
        2500
        two_requests
        worker_3)
play_schedule-Paced_example =
    play_schedule-Paced 1 length (λ c. 7) (λ c. 64) (pos 1) silent 4 10 200 200 2500 two_requests
      worker_3 (λ j le. omega arith) two_requests-Paced (omega arith)
