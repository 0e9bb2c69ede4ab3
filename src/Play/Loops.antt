-- ===== src/Play/Loops.antt =====
-- The loops of `play_schedule` end, and what they keep.
use psp.Base.{
  ℕ, zero, suc, Ptr, ◌-◌, ◌≤◌, ◌<◌, ◌≡◌, refl, Bool, ◌&&◌, ◌||◌, List, arith, ltb, leb, ltb→lt,
  Bool-cases, inl, inr, ℤ, Stops, Stops-bind, Stops-if, Stops-ok, Stops-fault, Stops-weaken,
}
use psp.ClientTypes.{PktType}
use psp.Client.{Client}
use psp.Play.{Schedule, inflight_of, send_due, read_send_time, gen_next_send_time, take_answers}
use psp.Play.Bounds.{Paced, Kept, Round, send_round-Round}

-- a schedule moved on to its next time
abbrev pub Next : ℤ → Schedule → Schedule → Type 0
Next max s s' =
    Paced max s' × Kept s s' × (s'.send_time_it ≡ suc s.send_time_it) × (s.send_time_it < s.n_times)

pub gen_next_send_time-Paced :
    (max : ℤ) (s : Schedule) → Paced max s → Stops (Next max s) (gen_next_send_time s)
unfolding gen_next_send_time read_send_time
gen_next_send_time-Paced max s paced = elim (Bool-cases (ltb s.send_time_it s.n_times)) [
  | inl inside ↦ rw inside (
      Stops-ok _ _ (
        record {
          sent = paced.sent;
          small = paced.small;
          received = paced.received;
          counted = paced.counted;
          held = paced.held;
        },
        (refl, refl, refl, refl, refl, refl),
        refl,
        ltb→lt s.send_time_it s.n_times inside,
      ))
  | inr behind ↦ rw behind (Stops-fault _)
]

pub Kept-trans : (s s' s'' : Schedule) → Kept s s' → Kept s' s'' → Kept s s''
Kept-trans s s' s'' (a, b, c, d, e, f) (a', b', c', d', e', f') =
    (cc (a, a'), cc (b, b'), cc (c, c'), cc (d, d'), cc (e, e'), cc (f, f'))

module _ (cksum_flag : ℕ) (tx_burst : List Ptr → ℕ) (tsc : Client → ℕ) (alloc : Client → Ptr)
    (max : ℤ) where
  abbrev pub Sent : Schedule → ℕ × Bool × Schedule × Client → Type 0
  Sent s r = Paced max r.2 × Kept s r.2

  Sent-Kept :
      (s s' : Schedule) (r : ℕ × Bool × Schedule × Client) → Kept s s' → Sent s' r → Sent s r
  Sent-Kept s s' r k h = (h.0, Kept-trans s s' r.2 k h.1)

  pub send_due-Sent :
      (rounds iter_time : ℕ) (complete : Bool) (s : Schedule) (c : Client)
      → Paced max s
      → s.recv_requests < s.n_requests
      → s.n_times - s.send_time_it < rounds
      → Stops
          (Sent s)
          (send_due cksum_flag tx_burst tsc alloc max rounds iter_time (inflight_of s) complete s c)
  unfolding send_due
  send_due-Sent zero iter_time complete s c paced open_end fuel = absurd (omega arith)
  send_due-Sent (suc rounds) iter_time complete s c paced open_end fuel =
      elim (Bool-cases (
        leb s.next_send_time iter_time
        && (leb iter_time s.end_time && ltb s.send_index s.n_requests))) [
          | inl due ↦
              let lt : s.send_index < s.n_requests = ground arith in
              rw due (
                Stops-bind (Round cksum_flag tx_burst tsc alloc max s) (Sent s) _ _
                  (send_round-Round cksum_flag tx_burst tsc alloc max s c paced lt open_end)
                  (λ r h.
                    Stops-if (Sent s) r.0 _ _
                      (Stops-bind (Next max r.1) (Sent s) _ _ (gen_next_send_time-Paced max r.1 h.0)
                        (λ s2 g.
                          let kept = Kept-trans s r.1 s2 h.1 g.1 in
                          Stops-weaken (Sent s2) (Sent s) _
                            (send_due-Sent rounds iter_time
                              (complete || leb s2.end_time s2.next_send_time) s2 r.2 g.0
                              (omega (arith, kept.5, kept.1))
                              (omega (arith, kept.0, g.2, g.3, h.2, h.1.0)))
                            (λ q sent. Sent-Kept s s2 q kept sent)))
                      (Stops-ok (Sent s) _ (h.0, h.1))))
          | inr idle ↦ rw idle (Stops-ok (Sent s) _ (paced, (refl, refl, refl, refl, refl, refl)))
        ]

  pub take_answers-Ended :
      (left pop_time : ℕ) (ptype : PktType) (c : Client)
      → Stops
          (λ r. r.0 ≤ left)
          (take_answers cksum_flag tx_burst tsc alloc max left pop_time ptype c)
  unfolding take_answers
  take_answers-Ended zero pop_time ptype c = Stops-ok _ _ (omega arith)
  take_answers-Ended (suc left) pop_time ptype c =
      Stops-if (λ r. r.0 ≤ suc left) (ltb c.udp.pop_tail c.udp.pop_head) _ _
        (Stops-if (λ r. r.0 ≤ suc left) _ _ _
          (Stops-bind (λ r. r.0 ≤ left) (λ r. r.0 ≤ suc left) _ _
            (take_answers-Ended left pop_time ptype _) (λ r h. Stops-ok _ _ (omega arith)))
          (Stops-fault _))
        (Stops-ok _ _ (omega arith))
