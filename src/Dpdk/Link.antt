-- ===== src/Dpdk/Link.antt =====
-- `wait_for_link_status_up` of dpdk.cc: it ends within 90 polls of the link, 100 ms apart.
use psp.Base.{
  ℕ, zero, suc, ◌≤◌, ◌<◌, ◌≡◌, refl, Bool, true, false, [], ◌∷◌, ◌++◌, append_assoc, arith, ok, ltb,
  if◌then◌else◌, Run, Bool-cases, inl, inr, ltb→lt,
}
use psp.Dpdk.{
  Calls, Driver, link_get, delay_ms, econnrefused, rte_eth_link_get_nowait, print_link_status,
  poll_link, wait_for_link_status_up,
}

-- the calls after so many polls that find the link down
abbrev pub waits : ℕ → ℕ → Calls → Calls
waits zero port calls = calls
waits (suc k) port calls = waits k port (calls ++ (link_get port ∷ delay_ms 100 ∷ []))

-- the link is down at each of the next `k` polls
abbrev pub DownFor : Driver → ℕ → ℕ → Calls → Type 0
DownFor d zero port calls = Unit
DownFor d (suc k) port calls =
    (d.link_up calls ≡ false) × DownFor d k port (calls ++ (link_get port ∷ delay_ms 100 ∷ []))

module _ (d : Driver) (port : ℕ) (valid : d.is_valid_port port ≡ true) where
  poll_link-up :
      (rounds k : ℕ) (l : Bool) (calls : Calls)
      → k < rounds
      → DownFor d k port calls
      → d.link_up (waits k port calls) ≡ true
      → poll_link d rounds port l calls ≡ ok (0, waits k port calls ++ (link_get port ∷ []))
  unfolding poll_link rte_eth_link_get_nowait print_link_status
  poll_link-up zero k l calls lt down up = absurd (omega arith)
  poll_link-up (suc rounds) zero l calls lt down up = rw (valid, up) refl
  poll_link-up (suc rounds) (suc k) l calls lt down up =
      rw (valid, down.0, append_assoc calls (link_get port ∷ []) (delay_ms 100 ∷ []))
        (poll_link-up rounds k false (calls ++ (link_get port ∷ delay_ms 100 ∷ [])) (omega arith)
          down.1 up)

  poll_link-down :
      (rounds : ℕ) (l : Bool) (calls : Calls)
      → DownFor d rounds port calls
      → poll_link d rounds port l calls ≡ ok (econnrefused, waits rounds port calls)
  unfolding poll_link rte_eth_link_get_nowait print_link_status
  poll_link-down zero l calls down = rw valid refl
  poll_link-down (suc rounds) l calls down =
      rw (valid, down.0, append_assoc calls (link_get port ∷ []) (delay_ms 100 ∷ []))
        (poll_link-down rounds false (calls ++ (link_get port ∷ delay_ms 100 ∷ [])) down.1)

  -- what is returned after `k` polls that find the link down
  abbrev pub link_result : ℕ → Calls → Run (ℕ × Calls)
  link_result k calls =
      if ltb k 90
      then ok (0, waits k port calls ++ (link_get port ∷ []))
      else ok (econnrefused, waits k port calls)

  -- On a valid port, let `k` be the number of polls that find the link down before one finds it up,
  -- or 90 if there are that many. Then `wait_for_link_status_up` ends after `k` polls, each followed
  -- by a delay of 100 ms: if `k` is below 90, one more poll is its last call and it returns 0, else
  -- it returns `ECONNREFUSED`.
  pub wait_for_link_status_up_lem :
      (k : ℕ) (calls : Calls)
      → k ≤ 90
      → DownFor d k port calls
      → (k < 90 → d.link_up (waits k port calls) ≡ true)
      → wait_for_link_status_up d port calls ≡ link_result k calls
  unfolding wait_for_link_status_up
  wait_for_link_status_up_lem k calls le down up = elim (Bool-cases (ltb k 90)) [
    | inl below ↦
        let lt = ltb→lt k 90 below in
        rw (valid, below) (poll_link-up 90 k false calls lt down (up lt))
    | inr above ↦
        let same : k ≡ 90 = ground arith in
        rw (valid, above) (rw same (poll_link-down 90 false calls (rw same at down)))
  ]
