-- ===== src/Play/Ends.antt =====
-- `play_schedule` ends when its time is over, and what holds then.
use psp.Base.{
  ℕ, zero, suc, Ptr, ◌+◌, ◌-◌, ◌^◌, ◌≤◌, ◌<◌, ◌≡◌, refl, Bool, true, false, ◌&&◌, ◌||◌, none, List,
  ◌⊎◌, arith, ltb, leb, ltb→lt, ◌==◌, Bool-cases, inl, inr, add32, ℤ, pos, negsuc, Stops,
  Stops-bind, Stops-if, Stops-ok, Stops-fault, Stops-weaken,
}
use psp.Udp.{recv_packets, eagain}
use psp.Client.{Client}
use psp.Play.{Schedule, Polls, read_send_time, poll_nic, play, play_schedule}
use psp.Play.Bounds.{Held, Paced, Kept}
use psp.Play.Loops.{
  Next, gen_next_send_time-Paced, Kept-trans, Sent, send_due-Sent, take_answers-Ended,
}

-- every poll from `last` on is read at the time `deadline` or later
abbrev pub Passes : Polls → (deadline last : ℕ) → Type 0
Passes polls deadline last = (j : ℕ) → last ≤ j → deadline ≤ (polls j).1

-- what a turn at the NIC leaves: either the time is over, or polls were made before `last`
abbrev Turn : ℤ → Schedule → (deadline last k : ℕ) → ℕ × Bool × ℕ × ℕ × Schedule × Client → Type 0
Turn max s deadline last k r =
    ((r.1 ≡ true) ⊎ ((k < r.3) × (k ≤ last)))
    × (last < r.3 → deadline ≤ r.2)
    × Paced max r.4
    × (r.4.send_time_it ≡ s.send_time_it)
    × Kept s r.4

-- before the time is over, the polls are those up to `last`
before : (k last deadline t : ℕ) → (last < k → deadline ≤ t) → leb deadline t ≡ false → k ≤ last
before k last deadline t late early = elim (Bool-cases (ltb last k)) [
  | inl lt ↦ let over = late (ltb→lt last k lt) in absurd (ground arith)
  | inr ge ↦ ground arith
]

-- answers that are counted
receive-Held :
    (max : ℤ) (sent received n : ℕ)
    → received + n < 2 ^ 32
    → Held max sent received
    → Held max sent (add32 received n)
receive-Held (negsuc m) sent received n small held = tt
receive-Held (pos m) sent received n small held = omega arith

receive-Paced :
    (max : ℤ) (s : Schedule) (n : ℕ)
    → n ≤ 8
    → s.recv_requests < s.n_requests
    → Paced max s
    → Paced max (record s { recv_requests = add32 s.recv_requests n })
receive-Paced max s n few lt paced = record {
  sent = paced.sent;
  small = paced.small;
  received = omega (arith, paced.small);
  counted = paced.counted;
  held = receive-Held max s.send_index s.recv_requests n (omega (arith, paced.small)) paced.held;
}

-- a poll that is counted
abbrev polled : Schedule → Schedule
polled s = record s { ev_count = add32 s.ev_count 1 }

polled-Paced : (max : ℤ) (s : Schedule) → Paced max s → Paced max (polled s)
polled-Paced max s paced = record {
  sent = paced.sent;
  small = paced.small;
  received = paced.received;
  counted = paced.counted;
  held = paced.held;
}

polled-Turn :
    (max : ℤ) (s : Schedule) (deadline last k : ℕ) (r : ℕ × Bool × ℕ × ℕ × Schedule × Client)
    → k ≤ last
    → Turn max (polled s) deadline last (suc k) r
    → Turn max s deadline last k r
polled-Turn max s deadline last k r early (inl over, late, paced, it, kept) =
    (inl over, late, paced, it, kept)
polled-Turn max s deadline last k r early (inr went, late, paced, it, kept) =
    (inr (omega (arith, went.0), early), late, paced, it, kept)

module _ (cksum_flag : ℕ) (tx_burst : List Ptr → ℕ) (tsc : Client → ℕ) (alloc : Client → Ptr)
    (max : ℤ) (polls : Polls) (last : ℕ) where
  poll_nic-Turn :
      (rounds k iter_time : ℕ) (s : Schedule) (c : Client)
      → Passes polls (s.start_time + s.max_duration) last
      → (last < k → s.start_time + s.max_duration ≤ iter_time)
      → Paced max s
      → suc last - k < rounds
      → Stops
          (Turn max s (s.start_time + s.max_duration) last k)
          (poll_nic cksum_flag tx_burst tsc alloc max rounds polls k iter_time s c)
  unfolding poll_nic
  poll_nic-Turn zero k iter_time s c passes late paced fuel = absurd (omega arith)
  poll_nic-Turn (suc rounds) k iter_time s c passes late paced fuel =
      elim (Bool-cases (leb (s.start_time + s.max_duration) iter_time)) [
        | inl over ↦
            rw over
              (Stops-ok _ _ (inl refl, late, paced, refl, (refl, refl, refl, refl, refl, refl)))
        | inr not_over ↦
            let early : k ≤ last =
              before k last (s.start_time + s.max_duration) iter_time late not_over in
            let (pkts, now) = polls k in
            let (status, udp) = recv_packets pkts c.udp in
            let c' : Client = record c { udp = udp } in
            rw not_over (
              Stops-if (Turn max s (s.start_time + s.max_duration) last k)
                (status == eagain && ltb now s.next_send_time) _ _
                (Stops-weaken (Turn max (polled s) (s.start_time + s.max_duration) last (suc k))
                  (Turn max s (s.start_time + s.max_duration) last k) _
                  (poll_nic-Turn rounds (suc k) now (polled s) c' passes
                    (λ lt. passes k (omega arith)) (polled-Paced max s paced) (omega arith))
                  (λ r h. polled-Turn max s (s.start_time + s.max_duration) last k r early h))
                (Stops-ok (Turn max s (s.start_time + s.max_duration) last k) _ (
                  inr (omega arith, early),
                  λ lt. passes k (omega arith),
                  polled-Paced max s paced,
                  refl,
                  (refl, refl, refl, refl, refl, refl),
                )))
      ]

  -- the rounds that are left to be made
  abbrev need : Bool → (k n_times : ℕ) → ℕ
  need true k n_times = 1
  need false k n_times = suc last - k + n_times + 3

  need-turn :
      (over : Bool) (rounds k k' n n' : ℕ)
      → (over ≡ true) ⊎ ((k < k') × (k ≤ last))
      → need false k n ≤ suc rounds
      → n' ≡ n
      → need over k' n' ≤ rounds
  need-turn true rounds k k' n n' went fuel same = omega arith
  need-turn false rounds k k' n n' (inl over) fuel same = absurd (cc over)
  need-turn false rounds k k' n n' (inr went) fuel same = omega (arith, went.0, went.1)

  -- how the loop ends
  abbrev Played : Schedule → Bool × Schedule × Client → Type 0
  Played s r = Paced max r.1 × (r.1.n_requests ≡ s.n_requests)

  play-Played :
      (rounds k iter_time deadline : ℕ) (terminate complete : Bool) (s : Schedule) (c : Client)
      → Passes polls deadline last
      → (last < k → deadline ≤ iter_time)
      → s.start_time + s.max_duration ≡ deadline
      → Paced max s
      → need terminate k s.n_times ≤ rounds
      → Stops
          (Played s)
          (play cksum_flag tx_burst tsc alloc max rounds polls k iter_time terminate complete s c)
  unfolding play
  play-Played zero k iter_time deadline true complete s c passes late at paced fuel =
      absurd (omega arith)
  play-Played zero k iter_time deadline false complete s c passes late at paced fuel =
      absurd (omega arith)
  play-Played (suc rounds) k iter_time deadline true complete s c passes late at paced fuel =
      let stop : (ltb s.recv_requests s.n_requests && false) ≡ false = ground arith in
      rw stop (Stops-ok (Played s) _ (paced, refl))
  play-Played (suc rounds) k iter_time deadline false complete s c passes late at paced fuel =
      elim (Bool-cases (ltb s.recv_requests s.n_requests)) [
        | inl open_end ↦
            let lt = ltb→lt s.recv_requests s.n_requests open_end in
            rw open_end (
              Stops-bind (Turn max s (s.start_time + s.max_duration) last k) (Played s) _ _
                (poll_nic-Turn rounds k iter_time s c (λ j le. omega (arith, at, passes j le))
                  (λ after. omega (arith, at, late after)) paced (omega arith))
                (λ r turn.
                  Stops-bind (Sent cksum_flag tx_burst tsc alloc max r.4) (Played s) _ _
                    (send_due-Sent cksum_flag tx_burst tsc alloc max rounds r.2 complete r.4 r.5
                      turn.2 (omega (arith, lt, (turn.4).1, (turn.4).5))
                      (omega (arith, (turn.4).0)))
                    (λ q sent.
                      let kept = Kept-trans s r.4 q.2 turn.4 sent.1 in
                      let again : (over : Bool)
                          → (s' : Schedule) → (c' : Client)
                          → Kept q.2 (record s' { recv_requests = q.2.recv_requests })
                          → Paced max s'
                          → need over r.3 s'.n_times ≤ rounds
                          → Stops (Played s) (
                              play cksum_flag tx_burst tsc alloc max rounds polls r.3 r.2 over q.1
                                s' c') =
                        λ over s' c' same paced' enough.
                          Stops-weaken (Played s') (Played s) _
                            (play-Played rounds r.3 r.2 deadline over q.1 s' c' passes
                              (λ after. omega (arith, at, turn.1 after))
                              (omega (arith, at, kept.3, kept.4, same.3, same.4)) paced' enough)
                            (λ b h. (h.0, omega (arith, h.1, same.1, kept.1))) in
                      Stops-if (Played s) (q.0 == 0 && (q.1 || ltb q.2.end_time r.2)) _ _
                        (again true q.2 q.3 (refl, refl, refl, refl, refl, refl) sent.0
                          (omega arith))
                        (Stops-if (Played s) (r.0 == 0) _ _
                          (Stops-bind (λ n. n.0 ≤ 8) (Played s) _ _
                            (take_answers-Ended cksum_flag tx_burst tsc alloc max 8 (tsc q.3)
                              q.2.ptype q.3)
                            (λ n few.
                              again r.1 (record q.2 { recv_requests = add32 q.2.recv_requests n.0 })
                                n.1 (refl, refl, refl, refl, refl, refl)
                                (receive-Paced max q.2 n.0 few (omega (arith, lt, kept.1, kept.5))
                                  sent.0)
                                (need-turn r.1 rounds k r.3 s.n_times q.2.n_times turn.0 fuel
                                  kept.0)))
                          (again r.1 q.2 q.3 (refl, refl, refl, refl, refl, refl) sent.0
                            (need-turn r.1 rounds k r.3 s.n_times q.2.n_times turn.0 fuel
                              kept.0))))))
        | inr closed ↦ rw closed (Stops-ok (Played s) _ (paced, refl))
      ]

  -- Let the clock pass the schedule's time limit by poll `last` of the NIC. Then `play_schedule` ends
  -- within `last + n_times + 4` rounds of each of its loops, whatever the NIC and the pool of packets
  -- give. If it returns, at most `n_requests` requests were sent, and with a `max_concurrency` of
  -- `m`, at most `m` more than answers were counted; each attempt was counted as sent or as skipped.
  -- The schedule starts with counters of which this is true, and has less than 2^31 requests.
  pub play_schedule-Paced :
      (rounds t0 t1 t2 : ℕ) (sched : Schedule) (c : Client)
      → Passes polls (t0 + sched.max_duration) last
      → Paced max sched
      → last + sched.n_times + 4 ≤ rounds
      → Stops
          (λ r. Paced max r.0 × (r.0.n_requests ≡ sched.n_requests))
          (play_schedule cksum_flag tx_burst tsc alloc max rounds polls t0 t1 t2 sched c)
  unfolding play_schedule read_send_time
  play_schedule-Paced rounds t0 t1 t2 sched c passes paced fuel =
      let s : Schedule = record sched {
        start_time = t0;
        end_time = sched.send_times (sched.n_times - 1) + t0 - sched.send_times 0;
        send_time_it = 0;
      } in
      let started : Paced max s = record {
        sent = paced.sent;
        small = paced.small;
        received = paced.received;
        counted = paced.counted;
        held = paced.held;
      } in
      let Final : Schedule × Client → Type 0 =
        λ r. Paced max r.0 × (r.0.n_requests ≡ sched.n_requests) in
      Stops-bind (Next max s) Final _ _ (gen_next_send_time-Paced max s started) (λ s1 next.
        Stops-bind (Played s1) Final _ _
          (play-Played rounds 0 t1 (t0 + sched.max_duration) false false s1
            (record c { next_cr = none }) passes (λ after. absurd (omega arith))
            (omega (arith, (next.1).3, (next.1).4)) next.0 (omega (arith, (next.1).0)))
          (λ r played.
            let final : (last_time : ℕ)
                → Paced max (record r.1 { last_send_time = last_time; end_time = t2 }) =
              λ last_time. record {
                sent = (played.0).sent;
                small = (played.0).small;
                received = (played.0).received;
                counted = (played.0).counted;
                held = (played.0).held;
              } in
            Stops-bind (λ t. Unit) Final _ _
              (Stops-if (λ t. Unit) r.0 _ _ (Stops-ok _ _ tt)
                (Stops-if (λ t. Unit) (ltb r.1.send_time_it r.1.n_times) _ _ (Stops-ok _ _ tt)
                  (Stops-fault _)))
              (λ t u. Stops-ok Final _ (final t, omega (arith, played.1, (next.1).1)))))
