-- ===== src/Play/Bounds.antt =====
-- What the loop over the due requests of `play_schedule` keeps.
use psp.Base.{
  ℕ, Ptr, ◌+◌, ◌^◌, ◌≤◌, ◌<◌, ◌≡◌, refl, Bool, true, false, Option, none, some, List, arith, ◌==◌,
  Bool-cases, inl, inr, add32, sub32, ℤ, pos, negsuc, ok, Stops, Stops-bind, Stops-if, Stops-ok,
  Stops-panic,
}
use psp.Udp.{eagain}
use psp.Client.{Client}
use psp.Play.Sends.{send_request-Ended, gen_next_req-Ended}
use psp.Play.{Schedule, may_send, inflight_of, skip, send_prepared, send_round}

-- no more requests are on their way than `max_concurrency` allows
abbrev pub Held : ℤ → (sent received : ℕ) → Type 0
Held (negsuc n) sent received = Unit
Held (pos m) sent received = sent ≤ received + m

send-Held :
    (max : ℤ) (sent received : ℕ)
    → Held max sent received
    → may_send max (sub32 sent received) ≡ true
    → sent < 2 ^ 31
    → received < 2 ^ 31
    → Held max (add32 sent 1) received
send-Held (negsuc n) sent received held may s r = tt
send-Held (pos m) sent received held may s r = ground arith

-- the counters of a schedule that is played
pub record Paced (max : ℤ) (s : Schedule) : Type 0 where
  pub sent : s.send_index ≤ s.n_requests
  pub small : s.n_requests < 2 ^ 31
  pub received : s.recv_requests ≤ s.n_requests + 8
  pub counted : s.attempts ≡ add32 s.send_index s.n_skipped
  pub held : Held max s.send_index s.recv_requests

module _ {max : ℤ} {s : Schedule} (paced : Paced max s) where
  -- one more attempt, in each of its two ways
  skip-Paced : Paced max (skip (record s { attempts = add32 s.attempts 1 }))
  skip-Paced = record {
    sent = paced.sent;
    small = paced.small;
    received = paced.received;
    counted = omega (arith, paced.counted);
    held = paced.held;
  }

  send-Paced :
      may_send max (inflight_of s) ≡ true
      → s.send_index < s.n_requests
      → s.recv_requests < s.n_requests
      → Paced max (record s { attempts = add32 s.attempts 1; send_index = add32 s.send_index 1 })
  send-Paced may due open_end = record {
    sent = omega (arith, paced.small);
    small = paced.small;
    received = paced.received;
    counted = omega (arith, paced.counted);
    held =
        send-Held max s.send_index s.recv_requests paced.held may (omega (arith, paced.small))
          (omega (arith, paced.small));
  }

-- what the loops leave as it is
abbrev pub Kept : Schedule → Schedule → Type 0
Kept s s' =
    (s'.n_times ≡ s.n_times)
    × (s'.n_requests ≡ s.n_requests)
    × (s'.end_time ≡ s.end_time)
    × (s'.start_time ≡ s.start_time)
    × (s'.max_duration ≡ s.max_duration)
    × (s'.recv_requests ≡ s.recv_requests)

module _ (cksum_flag : ℕ) (tx_burst : List Ptr → ℕ) (tsc : Client → ℕ) (alloc : Client → Ptr)
    (max : ℤ) where
  -- a schedule that is kept, or sent on, at the same place of its times
  abbrev pub Round : Schedule → Bool × Schedule × Client → Type 0
  Round s r = Paced max r.1 × Kept s r.1 × (r.1.send_time_it ≡ s.send_time_it)

  skipped :
      (s : Schedule) (go_on : Bool) (c : Client)
      → Paced max s
      → Stops (Round s) (ok (go_on, skip (record s { attempts = add32 s.attempts 1 }), c))
  skipped s go_on c paced =
      Stops-ok (Round s) _ (skip-Paced paced, (refl, refl, refl, refl, refl, refl), refl)

  send_prepared-Round :
      (o : Option ℕ) (s : Schedule) (c : Client)
      → Paced max s
      → may_send max (inflight_of s) ≡ true
      → s.send_index < s.n_requests
      → s.recv_requests < s.n_requests
      → Stops (Round s) (
          send_prepared cksum_flag tx_burst tsc alloc max o
            (record s { attempts = add32 s.attempts 1 })
            c)
  unfolding send_prepared
  send_prepared-Round none s c paced may due open_end = Stops-panic (Round s)
  send_prepared-Round (some i) s c paced may due open_end =
      Stops-bind (λ r. Unit) (Round s) _ _ (send_request-Ended cksum_flag tx_burst (tsc c) i c)
        (λ r u.
          Stops-if (Round s) (r.0 == 0) _ _
            (Stops-ok (Round s) _
              (send-Paced paced may due open_end, (refl, refl, refl, refl, refl, refl), refl))
            (Stops-if (Round s) (r.0 == eagain) _ _ (skipped s false r.1 paced)
              (Stops-panic (Round s))))

  pub send_round-Round :
      (s : Schedule) (c : Client)
      → Paced max s
      → s.send_index < s.n_requests
      → s.recv_requests < s.n_requests
      → Stops (Round s) (send_round cksum_flag tx_burst tsc alloc max (inflight_of s) s c)
  unfolding send_round
  send_round-Round s c paced due open_end = elim (Bool-cases (may_send max (inflight_of s))) [
    | inl may ↦ rw may (
        Stops-bind (λ r. Unit) (Round s) _ _
          (gen_next_req-Ended (alloc c) s.ptype s.pkt_size s.send_index c)
          (λ r u.
            Stops-if (Round s) (r.0 == 0) _ _
              (send_prepared-Round r.1.next_cr s r.1 paced may due open_end)
              (skipped s false r.1 paced)))
    | inr full ↦ rw full (skipped s true c paced)
  ]
