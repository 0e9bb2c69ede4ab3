-- ===== src/Dpdk/Setup.antt =====
-- `init_dpdk_port` of dpdk.cc: which calls it makes, and in which order.
use psp.Base.{ℕ, Ptr, ◌≡◌, ◌≢◌, Bool, true, List, [], ◌∷◌, ◌++◌, append-nil, ◌⊎◌, ℤ, pos, panic}
use psp.Dpdk.{
  Call, Calls, Driver, dev_info_get, fc_none, dev_configure, adjust_nb_rx_tx_desc, dev_socket_id,
  dev_start, flow_ctrl_get, flow_ctrl_set, rx_ring_size, tx_ring_size,
}
use psp.Dpdk.Steps.{rx_calls, tx_calls, Told, socket_of}

module _ (d : Driver) where
  -- the calls behind the socket's
  abbrev pub queue_calls : (port n_tx_rings n_rx_rings : ℕ) → Ptr → (socket : ℕ) → Calls
  queue_calls port n_tx_rings n_rx_rings pool socket =
      rx_calls n_rx_rings 0 port (d.rx_desc rx_ring_size) socket pool
      ++ (tx_calls n_tx_rings 0 port (d.tx_desc tx_ring_size) socket
          ++ (dev_start port ∷ flow_ctrl_get port ∷ flow_ctrl_set port fc_none ∷ []))

  module _ (port n_tx_rings n_rx_rings : ℕ) (pool : Ptr) where
    abbrev configure : Call
    configure = dev_configure port n_rx_rings n_tx_rings 1024

    abbrev adjust : Call
    adjust = adjust_nb_rx_tx_desc port rx_ring_size tx_ring_size

    abbrev adjust_calls : Calls
    adjust_calls = dev_info_get port ∷ configure ∷ adjust ∷ []

    -- the calls of a port that is set up, in their order, before the polls of its link
    abbrev pub port_calls : Calls → Calls
    port_calls calls =
        adjust_calls
        ++ (dev_socket_id port
            ∷ queue_calls port n_tx_rings n_rx_rings pool
                (socket_of (d.answer (calls ++ adjust_calls) (dev_socket_id port))))

    -- how `init_dpdk_port` ends
    abbrev pub Outcome : Calls → ℤ × Calls → Type 0
    Outcome calls r =
        ((r.0 ≡ pos 0) × Told port (port_calls calls) calls r.1)
        ⊎ ((r.0 ≢ pos 0) × (r.1 ≡ calls ++ adjust_calls))
