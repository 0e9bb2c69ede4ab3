-- ===== src/Dpdk/Steps.antt =====
-- The steps of `init_dpdk_port` of dpdk.cc: which calls each makes.
use psp.Base.{
  ℕ, zero, suc, Ptr, ◌+◌, ◌<◌, ◌≡◌, refl, sym, Bool, true, false, [], ◌∷◌, ◌++◌, append-nil,
  append_assoc, arith, ◌==◌, if◌then◌else◌, ◌⊎◌, inl, inr, Bool-cases, ℤ, pos, negsuc, Run, ok,
  panic, ◌>>=◌, Ends, Ends-bind, Ends-weaken,
}
use psp.Dpdk.{
  Call, Calls, Driver, dev_info_get, rx_queue_setup, tx_queue_setup, dev_start, link_get, delay_ms,
  to_status, psp_ok, checked_call, rx_queues, tx_queues, start, rte_eth_rx_queue_setup,
  rte_eth_tx_queue_setup, rte_eth_dev_info_get, rte_eth_link_get_nowait, print_link_status,
  poll_link, econnrefused,
}

-- each receive queue once, from `i` on, and each transmit queue
abbrev pub rx_calls : (left i port nb_rxd socket : ℕ) → Ptr → Calls
rx_calls zero i port nb_rxd socket pool = []
rx_calls (suc left) i port nb_rxd socket pool =
    rx_queue_setup port i nb_rxd socket pool ∷ rx_calls left (i + 1) port nb_rxd socket pool

abbrev pub tx_calls : (left i port nb_txd socket : ℕ) → Calls
tx_calls zero i port nb_txd socket = []
tx_calls (suc left) i port nb_txd socket =
    tx_queue_setup port i nb_txd socket 32 ∷ tx_calls left (i + 1) port nb_txd socket

-- so many polls of the link that are each followed by a delay
abbrev pub polls : ℕ → ℕ → Calls
polls zero port = []
polls (suc k) port = link_get port ∷ delay_ms 100 ∷ polls k port

-- an answer that is no status of success does not go on
refused : (n : ℕ) (calls : Calls) → (if suc n == 0 then ok calls else panic) ≡ panic
refused n calls = ground arith

pub psp_ok-Ends :
    (P : ℕ × Calls → Type 0) (r : Run (ℕ × Calls)) → Ends P r → Ends (λ c. P (0, c)) (psp_ok r)
unfolding psp_ok
psp_ok-Ends P (ok (zero, calls)) h = h
psp_ok-Ends P (ok (suc n, calls)) h = rw (refused n calls) tt
psp_ok-Ends P panic h = tt
psp_ok-Ends P Run.fault h = h
psp_ok-Ends P Run.stuck h = h

-- the calls behind `calls` are `base`, then polls of the link of which the last finds it up
abbrev pub LinkUp : (port : ℕ) → (base calls c : Calls) → Type 0
LinkUp port base calls c =
    (k : ℕ) × (k < 90) × (c ≡ calls ++ (base ++ (polls k port ++ (link_get port ∷ []))))

-- the calls behind `calls` are `base`, such polls, and a last one for the data of the device
abbrev pub Told : (port : ℕ) → (base calls c : Calls) → Type 0
Told port base calls c =
    (k : ℕ) × (k < 90)
    × (c ≡ calls ++ (base ++ (polls k port ++ (link_get port ∷ dev_info_get port ∷ []))))

abbrev pub Done : (port : ℕ) → (base calls : Calls) → ℤ × Calls → Type 0
Done port base calls r = (r.0 ≡ pos 0) × Told port base calls r.1

pub Told-append :
    (port : ℕ) (x base calls c c' : Calls)
    → c ≡ calls ++ x
    → Told port base c c'
    → Told port (x ++ base) calls c'
Told-append port x base calls c c' e (k, lt, e') =
    let rest = polls k port ++ (link_get port ∷ dev_info_get port ∷ []) in
    (k, lt, cc (e, e', append_assoc calls x (base ++ rest), append_assoc x base rest))

-- a step that appends `x`, before what ends in a link that is up
pub then-Done :
    (port : ℕ) (x base calls : Calls) (r : Run Calls) (f : Calls → Run (ℤ × Calls))
    → Ends (λ c. c ≡ calls ++ x) r
    → ((c : Calls) → Ends (Done port base c) (f c))
    → Ends (Done port (x ++ base) calls) (r >>= f)
then-Done port x base calls r f h g =
    Ends-bind (λ c. c ≡ calls ++ x) (Done port (x ++ base) calls) r f h
      (λ c e.
        Ends-weaken (Done port base c) (Done port (x ++ base) calls) (f c) (g c)
          (λ b done. (done.0, Told-append port x base calls c b.1 e done.1)))

-- the socket that is used for an answer of `rte_eth_dev_socket_id`
abbrev pub socket_of : ℤ → ℕ
socket_of (pos n) = n
socket_of (negsuc n) = 0

module _ (d : Driver) where
  to_status-Ends :
      (a : ℤ) (calls : Calls)
      → Ends (λ c. c ≡ calls) (psp_ok (to_status a >>= (λ status. ok (status, calls))))
  unfolding to_status psp_ok
  to_status-Ends (pos zero) calls = refl
  to_status-Ends (pos (suc n)) calls = tt
  to_status-Ends (negsuc n) calls = rw (refused n calls) tt

  pub checked_call-Ends :
      (port : ℕ) (call : Call) (calls : Calls)
      → Ends (λ c. c ≡ calls ++ (call ∷ [])) (psp_ok (checked_call d port call calls))
  unfolding checked_call psp_ok
  checked_call-Ends port call calls = elim (Bool-cases (d.is_valid_port port)) [
    | inl valid ↦ rw valid (to_status-Ends (d.answer calls call) (calls ++ (call ∷ [])))
    | inr bad ↦ rw bad tt
  ]

  pub dev_info_get-Ends :
      (port : ℕ) (calls : Calls)
      → Ends
          (λ c. c ≡ calls ++ (dev_info_get port ∷ []))
          (psp_ok (rte_eth_dev_info_get d port calls))
  unfolding rte_eth_dev_info_get psp_ok
  dev_info_get-Ends port calls = elim (Bool-cases (d.is_valid_port port)) [
    | inl valid ↦ rw valid refl
    | inr bad ↦ rw bad tt
  ]

  pub rx_queues-Ends :
      (left i port n socket : ℕ) (pool : Ptr) (calls : Calls)
      → Ends
          (λ c. c ≡ calls ++ rx_calls left i port n socket pool)
          (rx_queues d left i port n socket pool calls)
  unfolding rx_queues rte_eth_rx_queue_setup
  rx_queues-Ends zero i port n socket pool calls = sym (append-nil calls)
  rx_queues-Ends (suc left) i port n socket pool calls =
      let call = rx_queue_setup port i n socket pool in
      let rest = rx_calls left (i + 1) port n socket pool in
      Ends-bind (λ c. c ≡ calls ++ (call ∷ [])) (λ c. c ≡ calls ++ (call ∷ rest))
        (psp_ok (checked_call d port call calls)) (rx_queues d left (i + 1) port n socket pool)
        (checked_call-Ends port call calls)
        (λ c e.
          Ends-weaken (λ c'. c' ≡ c ++ rest) (λ c'. c' ≡ calls ++ (call ∷ rest))
            (rx_queues d left (i + 1) port n socket pool c)
            (rx_queues-Ends left (i + 1) port n socket pool c)
            (λ c' e'. cc (e, e', append_assoc calls (call ∷ []) rest)))

  pub tx_queues-Ends :
      (left i port n socket : ℕ) (calls : Calls)
      → Ends
          (λ c. c ≡ calls ++ tx_calls left i port n socket)
          (tx_queues d left i port n socket calls)
  unfolding tx_queues rte_eth_tx_queue_setup
  tx_queues-Ends zero i port n socket calls = sym (append-nil calls)
  tx_queues-Ends (suc left) i port n socket calls =
      let call = tx_queue_setup port i n socket 32 in
      let rest = tx_calls left (i + 1) port n socket in
      Ends-bind (λ c. c ≡ calls ++ (call ∷ [])) (λ c. c ≡ calls ++ (call ∷ rest))
        (psp_ok (checked_call d port call calls)) (tx_queues d left (i + 1) port n socket)
        (checked_call-Ends port call calls)
        (λ c e.
          Ends-weaken (λ c'. c' ≡ c ++ rest) (λ c'. c' ≡ calls ++ (call ∷ rest))
            (tx_queues d left (i + 1) port n socket c) (tx_queues-Ends left (i + 1) port n socket c)
            (λ c' e'. cc (e, e', append_assoc calls (call ∷ []) rest)))

  pub start-Ends :
      (port : ℕ) (calls : Calls)
      → Ends (λ c. c ≡ calls ++ (dev_start port ∷ [])) (start d port calls)
  unfolding start
  start-Ends port calls = go (d.answer calls (dev_start port))
    where
      go :
          (a : ℤ)
          → Ends
              (λ c. c ≡ calls ++ (dev_start port ∷ []))
              (elim a [ pos zero ↦ ok (calls ++ (dev_start port ∷ [])) | _ ↦ panic ])
      go (pos zero) = refl
      go (pos (suc n)) = tt
      go (negsuc n) = tt

  -- the polls either time out or end in a link that is up
  abbrev pub Polled : (rounds port : ℕ) → Calls → ℕ × Calls → Type 0
  Polled rounds port calls r =
      (r.0 ≡ econnrefused)
      ⊎ ((k : ℕ) × (k < rounds) × (r.1 ≡ calls ++ (polls k port ++ (link_get port ∷ []))))

  pub poll_link-Ends :
      (rounds port : ℕ) (l : Bool) (calls : Calls)
      → d.is_valid_port port ≡ true
      → Ends (Polled rounds port calls) (poll_link d rounds port l calls)
  unfolding poll_link rte_eth_link_get_nowait print_link_status
  poll_link-Ends zero port l calls valid = rw valid (inl refl)
  poll_link-Ends (suc rounds) port l calls valid = elim (Bool-cases (d.link_up calls)) [
    | inl up ↦ rw (valid, up) (inr (0, omega arith, refl))
    | inr down ↦
        let next = (calls ++ (link_get port ∷ [])) ++ (delay_ms 100 ∷ []) in
        rw (valid, down)
          (Ends-weaken (Polled rounds port next) (Polled (suc rounds) port calls)
            (poll_link d rounds port false next) (poll_link-Ends rounds port false next valid)
            (λ r polled. elim polled [
              | inl out ↦ inl out
              | inr more ↦ inr (
                suc (more.0),
                omega (arith, more.1),
                cc (
                  more.2,
                  append_assoc calls (link_get port ∷ []) (delay_ms 100 ∷ []),
                  append_assoc calls (link_get port ∷ delay_ms 100 ∷ [])
                      (polls (more.0) port ++ (link_get port ∷ [])),
                ),
              )
            ]))
  ]
