-- ===== src/Dpdk/Accepts.antt =====
-- `init_dpdk_port` of dpdk.cc succeeds on a driver that accepts what it is asked.
use psp.Base.{
  ℕ, zero, suc, Ptr, ◌+◌, ◌≡◌, refl, Bool, true, false, [], ◌∷◌, ◌++◌, append_assoc, inl, inr,
  Bool-cases, ℤ, pos, Run, ok, ◌>>=◌,
}
use psp.Dpdk.{
  Call, Calls, Driver, dev_info_get, rte_eth_dev_info_get, fc_none, dev_configure,
  adjust_nb_rx_tx_desc, dev_socket_id, dev_start, flow_ctrl_get, flow_ctrl_set, rx_queue_setup,
  tx_queue_setup, link_get, delay_ms, rx_ring_size, tx_ring_size, to_status, to_socket, psp_ok,
  checked_call, rx_queues, tx_queues, start, rte_eth_dev_socket_id, rte_eth_dev_configure,
  rte_eth_rx_queue_setup, rte_eth_tx_queue_setup, rte_eth_dev_flow_ctrl_get,
  rte_eth_dev_flow_ctrl_set, rte_eth_link_get_nowait, print_link_status, wait_for_link_status_up,
  poll_link, start_port, when_adjusted, init_dpdk_port,
}
use psp.Dpdk.Link.{DownFor}

-- the port is there, each call is answered by 0, and the link is never down for 90 polls on end
pub record Accepts (d : Driver) (port : ℕ) : Type 0 where
  pub valid : d.is_valid_port port ≡ true
  pub accepted : (calls : Calls) (call : Call) → d.answer calls call ≡ pos 0
  pub link : (calls : Calls) → ¬ (DownFor d 90 port calls)

abbrev pub Returns {ℓ} : {A : Type ℓ} → Run A → Type ℓ
Returns r = (a : _) × (r ≡ ok a)

-- a run behind one that returns
behind {ℓ κ ι} :
    {A : Type ℓ} {B : Type κ} (G : Run B → Type ι) (r : Run A) (f : A → Run B)
    → Returns r
    → ((a : A) → G (f a))
    → G (r >>= f)
behind G r f h g = rw (h.1) (g h.0)

module _ (d : Driver) (port : ℕ) (accepts : Accepts d port) where
  checked_call-Returns :
      (call : Call) (calls : Calls) → Returns (psp_ok (checked_call d port call calls))
  unfolding checked_call to_status psp_ok
  checked_call-Returns call calls =
      rw (accepts.valid, accepts.accepted calls call) (calls ++ (call ∷ []), refl)

  dev_info_get-Returns : (calls : Calls) → Returns (psp_ok (rte_eth_dev_info_get d port calls))
  unfolding rte_eth_dev_info_get psp_ok
  dev_info_get-Returns calls = rw accepts.valid (calls ++ (dev_info_get port ∷ []), refl)

  rx_queues-Returns :
      (left i n socket : ℕ) (pool : Ptr) (calls : Calls)
      → Returns (rx_queues d left i port n socket pool calls)
  unfolding rx_queues rte_eth_rx_queue_setup
  rx_queues-Returns zero i n socket pool calls = (calls, refl)
  rx_queues-Returns (suc left) i n socket pool calls =
      behind Returns _ (rx_queues d left (i + 1) port n socket pool)
        (checked_call-Returns (rx_queue_setup port i n socket pool) calls)
        (rx_queues-Returns left (i + 1) n socket pool)

  tx_queues-Returns :
      (left i n socket : ℕ) (calls : Calls) → Returns (tx_queues d left i port n socket calls)
  unfolding tx_queues rte_eth_tx_queue_setup
  tx_queues-Returns zero i n socket calls = (calls, refl)
  tx_queues-Returns (suc left) i n socket calls =
      behind Returns _ (tx_queues d left (i + 1) port n socket)
        (checked_call-Returns (tx_queue_setup port i n socket 32) calls)
        (tx_queues-Returns left (i + 1) n socket)

  poll_link-Returns :
      (rounds : ℕ) (l : Bool) (calls : Calls)
      → ¬ (DownFor d rounds port calls)
      → Returns (psp_ok (poll_link d rounds port l calls))
  unfolding poll_link rte_eth_link_get_nowait print_link_status psp_ok
  poll_link-Returns zero l calls up = absurd (up tt)
  poll_link-Returns (suc rounds) l calls up = elim (Bool-cases (d.link_up calls)) [
    | inl is_up ↦ rw (accepts.valid, is_up) (calls ++ (link_get port ∷ []), refl)
    | inr down ↦
        rw (accepts.valid, down, append_assoc calls (link_get port ∷ []) (delay_ms 100 ∷ []))
          (poll_link-Returns rounds false (calls ++ (link_get port ∷ delay_ms 100 ∷ []))
            (λ later. up (down, later)))
  ]

  link-Returns : (calls : Calls) → Returns (psp_ok (wait_for_link_status_up d port calls))
  unfolding wait_for_link_status_up
  link-Returns calls = rw accepts.valid (poll_link-Returns 90 false calls (accepts.link calls))

  start-Returns : (calls : Calls) → Returns (start d port calls)
  unfolding start
  start-Returns calls =
      rw (start, accepts.accepted calls (dev_start port)) (calls ++ (dev_start port ∷ []), refl)

  abbrev Zero : Run (ℤ × Calls) → Type 0
  Zero r = (c : Calls) × (r ≡ ok (pos 0, c))

  start_port-Returns :
      (n_tx_rings n_rx_rings socket : ℕ) (pool : Ptr) (calls : Calls)
      → Zero (start_port d port n_tx_rings n_rx_rings socket pool calls)
  unfolding start_port rte_eth_dev_flow_ctrl_get rte_eth_dev_flow_ctrl_set
  start_port-Returns n_tx_rings n_rx_rings socket pool calls =
      behind Zero _ _ (rx_queues-Returns n_rx_rings 0 (d.rx_desc rx_ring_size) socket pool calls)
        (λ c4.
          behind Zero _ _ (tx_queues-Returns n_tx_rings 0 (d.tx_desc tx_ring_size) socket c4) (λ c5.
            behind Zero _ _ (start-Returns c5) (λ c6.
              behind Zero _ _ (checked_call-Returns (flow_ctrl_get port) c6) (λ c7.
                behind Zero _ _ (checked_call-Returns (flow_ctrl_set port fc_none) c7) (λ c8.
                  behind Zero _ _ (link-Returns c8)
                    (λ c9. behind Zero _ _ (dev_info_get-Returns c9) (λ c10. (c10, refl))))))))

  -- On a driver that has the port, answers each call by 0 and never leaves the link down for 90
  -- polls on end, `init_dpdk_port` returns 0.
  pub init_dpdk_port-Accepts :
      (n_tx_rings n_rx_rings : ℕ) (pool : Ptr) (calls : Calls)
      → (c : Calls) × (init_dpdk_port d port pool n_tx_rings n_rx_rings calls ≡ ok (pos 0, c))
  unfolding init_dpdk_port rte_eth_dev_configure when_adjusted rte_eth_dev_socket_id to_socket
  init_dpdk_port-Accepts n_tx_rings n_rx_rings pool calls =
      let configure = dev_configure port n_rx_rings n_tx_rings 1024 in
      let adjust = adjust_nb_rx_tx_desc port rx_ring_size tx_ring_size in
      rw accepts.valid (
        behind Zero _ _ (dev_info_get-Returns calls) (λ c0.
          behind Zero _ _ (checked_call-Returns configure c0) (λ c1.
            let c2 = c1 ++ (adjust ∷ []) in
            rw
              (
                accepts.accepted c1 adjust,
                rte_eth_dev_socket_id,
                accepts.accepted c2 (dev_socket_id port),
                to_socket,
              )
              (start_port-Returns n_tx_rings n_rx_rings 0 pool (c2 ++ (dev_socket_id port ∷ []))))))
