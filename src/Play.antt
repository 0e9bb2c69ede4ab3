-- ===== src/Play.antt =====
-- src/c++/apps/client/client.hh: `play_schedule`, the loop that sends the requests of a schedule at
-- their times and takes the answers. What the clock, the NIC and the pool of packets give is a
-- parameter.
mod Examples
pub mod Bounds
pub mod Ends
pub mod Loops
pub mod Sends
use psp.Base.{
  ℕ, zero, suc, Ptr, ◌+◌, ◌-◌, ◌^◌, Bool, true, false, ◌&&◌, ◌||◌, not, Option, none, some, List,
  ◌∷◌, ltb, leb, ◌==◌, if◌then◌else◌, bit_and, update, add32, sub32, ℤ, pos, negsuc, Run, ok, panic,
  fault, stuck, ◌>>=◌,
}
use psp.Udp.{UdpContext, eagain, inbound_q_len, max_rx_burst, recv_packets}
use psp.ClientTypes.{PktType, ClientRequest}
use psp.Client.{Client, gen_next_req, send_request, answer_position}

-- the fields of a `Schedule` that are used; times are in nanoseconds, and `send_times` has `n_times`
-- items. The send time that comes next, and the place behind it, are fields of the client that plays
-- the schedule.
pub record Schedule : Type 0 where
  pub n_requests : ℕ
  pub send_index : ℕ
  pub recv_requests : ℕ
  pub attempts : ℕ
  pub ev_count : ℕ
  pub n_skipped : ℕ
  pub ptype : PktType
  pub pkt_size : ℕ
  pub send_times : ℕ → ℕ
  pub n_times : ℕ
  pub start_time : ℕ
  pub end_time : ℕ
  pub last_send_time : ℕ
  pub max_duration : ℕ
  pub send_time_it : ℕ
  pub next_send_time : ℕ

-- a send time of the schedule, moved to its start
abbrev pub due_time : Schedule → ℕ → ℕ
due_time s k = s.send_times k + s.start_time - s.send_times 0

-- `*send_time_it + start_offset`, in the vector
unfoldable pub read_send_time : Schedule → ℕ → Run ℕ
read_send_time s k = if ltb k s.n_times then ok (due_time s k) else fault

-- `gen_next_send_time`
unfoldable pub gen_next_send_time : Schedule → Run Schedule
gen_next_send_time s = do
  t ← read_send_time s s.send_time_it
  ok (record s { next_send_time = t; send_time_it = suc s.send_time_it })

-- `inflight`, the difference of two `uint32_t` as an `int`, and whether another request may be sent
abbrev pub inflight_of : Schedule → ℕ
inflight_of s = sub32 s.send_index s.recv_requests

abbrev pub may_send : (max_concurrency : ℤ) → (inflight : ℕ) → Bool
may_send (negsuc n) inflight = true
may_send (pos m) inflight = ltb inflight m || leb (2 ^ 31) inflight

abbrev pub skip : Schedule → Schedule
skip s = record s { n_skipped = add32 s.n_skipped 1 }

-- what a poll of the NIC yields, and the time read after it
abbrev pub Polls : Type 0
Polls = ℕ → List Ptr × ℕ

-- what is read from the clock and what the pool gives, by the state in which the program asks, and
-- the client's `max_concurrency`
module _ (cksum_flag : ℕ) (tx_burst : List Ptr → ℕ) (tsc : Client → ℕ) (alloc : Client → Ptr)
    (max_concurrency : ℤ) where
  -- the part of a round that sends the prepared request; the flag says whether the loop goes on
  unfoldable pub send_prepared : Option ℕ → Schedule → Client → Run (Bool × Schedule × Client)
  send_prepared none s c = panic
  send_prepared (some i) s c = do
    (rtn, c') ← send_request cksum_flag tx_burst (tsc c) i c
    if rtn == 0
        then ok (true, record s { send_index = add32 s.send_index 1 }, record c' { next_cr = none })
        else if rtn == eagain
        then ok (false, skip s, c')
        else panic

  -- a round of the loop over the requests that are due, up to the next send time
  unfoldable pub send_round : (inflight : ℕ) → Schedule → Client → Run (Bool × Schedule × Client)
  send_round inflight s c =
      let s1 : Schedule = record s { attempts = add32 s.attempts 1 } in
      if may_send max_concurrency inflight
      then (do
        (status, c1) ← gen_next_req (alloc c) s.ptype s.pkt_size s.send_index c
        if status == 0 then send_prepared c1.next_cr s1 c1 else ok (false, skip s1, c1))
      else ok (true, skip s1, c)

  -- the loop over the requests that are due, for so many rounds; with it go `inflight` and
  -- `sending_complete`
  unfoldable pub send_due :
      (rounds iter_time inflight : ℕ)
      → Bool
      → Schedule
      → Client
      → Run (ℕ × Bool × Schedule × Client)
  send_due zero iter_time inflight complete s c = stuck
  send_due (suc rounds) iter_time inflight complete s c =
      if leb s.next_send_time iter_time
        && (leb iter_time s.end_time && ltb s.send_index s.n_requests)
      then (do
        (go_on, s1, c1) ← send_round inflight s c
        if go_on
            then (do
              s2 ← gen_next_send_time s1
              send_due rounds iter_time (inflight_of s2)
                  (complete || leb s2.end_time s2.next_send_time) s2 c1)
            else ok (inflight, complete, s1, c1))
      else ok (inflight, complete, s, c)

  -- the loop over the packets that have arrived, for at most `MAX_RX_BURST` of them; the result
  -- counts them
  unfoldable pub take_answers : (left pop_time : ℕ) → PktType → Client → Run (ℕ × Client)
  take_answers zero pop_time ptype c = ok (0, c)
  take_answers (suc left) pop_time ptype c =
      if ltb c.udp.pop_tail c.udp.pop_head
      then (let req = c.udp.inbound_queue (bit_and c.udp.pop_tail (inbound_q_len - 1)) in
          let i = answer_position ptype c.worker_id (c.mbufs req) in
          let c' : Client = record c {
            udp = record c.udp { pop_tail = add32 c.udp.pop_tail 1 };
            requests = update c.requests i (record (c.requests i) { completed = pop_time });
            freed = req ∷ c.freed;
          } in
          if ltb i c.size
          then (do (n, c'') ← take_answers left pop_time ptype c'; ok (suc n, c''))
          else fault)
      else ok (0, c)

  -- the loop that polls the NIC until packets arrive or a request is due, for so many rounds, from
  -- poll `k` on: the status, `terminate`, the time, and the number of polls
  unfoldable pub poll_nic :
      (rounds : ℕ)
      → Polls
      → (k iter_time : ℕ) → Schedule
      → Client
      → Run (ℕ × Bool × ℕ × ℕ × Schedule × Client)
  poll_nic zero polls k iter_time s c = stuck
  poll_nic (suc rounds) polls k iter_time s c =
      if leb (s.start_time + s.max_duration) iter_time
      then ok (eagain, true, iter_time, k, s, c)
      else (let (pkts, now) = polls k in
          let (status, udp) = recv_packets pkts c.udp in
          let c' : Client = record c { udp = udp } in
          let s' : Schedule = record s { ev_count = add32 s.ev_count 1 } in
          if status == eagain && ltb now s.next_send_time
          then poll_nic rounds polls (suc k) now s' c'
          else ok (status, false, now, suc k, s', c'))

  -- the loop of `play_schedule`, for so many rounds: `complete` at its end, with the last state
  unfoldable pub play :
      (rounds : ℕ)
      → Polls
      → (k iter_time : ℕ) → (terminate complete : Bool) → Schedule
      → Client
      → Run (Bool × Schedule × Client)
  play zero polls k iter_time terminate complete s c = stuck
  play (suc rounds) polls k iter_time terminate complete s c =
      if ltb s.recv_requests s.n_requests && not terminate
      then (do
        (status, out_of_time, now, k', s1, c1) ← poll_nic rounds polls k iter_time s c
        (inflight, complete', s2, c2) ← send_due rounds now (inflight_of s1) complete s1 c1
        if inflight == 0 && (complete' || ltb s2.end_time now)
            then play rounds polls k' now true complete' s2 c2
            else if status == 0
            then (do
              (n, c3) ← take_answers max_rx_burst (tsc c2) s2.ptype c2
              play rounds polls k' now out_of_time complete'
                  (record s2 { recv_requests = add32 s2.recv_requests n }) c3)
            else play rounds polls k' now out_of_time complete' s2 c2)
      else ok (complete, s, c)

  -- `play_schedule`, which reads the time at its start, before its loop and at its end
  unfoldable pub play_schedule :
      (rounds : ℕ) → Polls → (t0 t1 t2 : ℕ) → Schedule → Client → Run (Schedule × Client)
  play_schedule rounds polls t0 t1 t2 sched c =
      let s : Schedule = record sched {
        start_time = t0;
        end_time = sched.send_times (sched.n_times - 1) + t0 - sched.send_times 0;
        send_time_it = 0;
      } in
      do
        s1 ← gen_next_send_time s
        (complete, s', c2) ← play rounds polls 0 t1 false false s1 (record c { next_cr = none })
        last ← if complete then ok s'.end_time else read_send_time s' s'.send_time_it
        ok (
          record s' { last_send_time = last; end_time = t2 },
          record c2 { send_offset = add32 c2.send_offset s'.n_requests },
        )
