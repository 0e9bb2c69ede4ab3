-- ===== src/Dpdk.antt =====
-- src/c++/libos/io/udp_dpdk/dpdk.cc: the set-up of a port and of its queues through DPDK. What the
-- driver answers is a parameter; printing is left out.
pub mod Accepts
pub mod Examples
pub mod Link
pub mod Setup
pub mod Steps
use psp.Base.{
  ℕ, zero, suc, Ptr, null, ◌+◌, Bool, true, false, Option, none, some, List, [], ◌∷◌, ◌++◌, ◌==◌,
  ◌||◌, ltb, if◌then◌else◌, ℤ, pos, negsuc, Run, ok, panic, ◌>>=◌,
}

-- `ERANGE`, `ECONNREFUSED`, `RX_RING_SIZE`, `TX_RING_SIZE` and `DEFAULT_TX_RS_THRESH`
abbrev pub erange : ℕ
erange = 34

abbrev pub econnrefused : ℕ
econnrefused = 111

abbrev pub rx_ring_size : ℕ
rx_ring_size = 128

abbrev pub tx_ring_size : ℕ
tx_ring_size = 128

abbrev pub default_tx_rs_thresh : ℕ
default_tx_rs_thresh = 32

-- the mode of flow control; `RTE_FC_NONE` is `fc_none`
pub data FcMode : Type 0 where
  fc_none : FcMode
  fc_rx_pause : FcMode
  fc_tx_pause : FcMode
  fc_full : FcMode

-- the calls of DPDK, with the arguments that the program chooses
pub data Call : Type 0 where
  dev_info_get : (port : ℕ) → Call
  dev_configure : (port rx_rings tx_rings max_rx_pkt_len : ℕ) → Call
  adjust_nb_rx_tx_desc : (port nb_rxd nb_txd : ℕ) → Call
  dev_socket_id : (port : ℕ) → Call
  rx_queue_setup : (port queue nb_rxd socket : ℕ) → (pool : Ptr) → Call
  tx_queue_setup : (port queue nb_txd socket tx_rs_thresh : ℕ) → Call
  dev_start : (port : ℕ) → Call
  flow_ctrl_get : (port : ℕ) → Call
  flow_ctrl_set : (port : ℕ) → FcMode → Call
  link_get : (port : ℕ) → Call
  delay_ms : ℕ → Call

abbrev pub Calls : Type 0
Calls = List Call

-- the driver of a port: which ports there are, what a call returns after the calls made before it,
-- whether the link is up then, and the numbers of descriptors after their adjustment
pub record Driver : Type 0 where
  pub is_valid_port : ℕ → Bool
  pub answer : Calls → Call → ℤ
  pub link_up : Calls → Bool
  pub rx_desc : ℕ → ℕ
  pub tx_desc : ℕ → ℕ

-- an answer that is 0 or the negative of an error number; `PSP_UNREACHABLE` aborts
unfoldable pub to_status : ℤ → Run ℕ
to_status (pos zero) = ok 0
to_status (pos (suc n)) = panic
to_status (negsuc n) = ok (suc n)

-- the branches of `rte_eth_dev_socket_id` on an answer: the status and `sockid_out`
unfoldable pub to_socket : ℤ → Run (ℕ × ℕ)
to_socket (negsuc zero) = ok (erange, 0)
to_socket (negsuc (suc n)) = panic
to_socket (pos n) = ok (0, n)

-- `PSP_OK`: any status but 0 aborts
unfoldable pub psp_ok : Run (ℕ × Calls) → Run Calls
psp_ok r = do (status, calls) ← r; if status == 0 then ok calls else panic

-- the loop of `rte_eal_init`: whether an item of `argv` is a null pointer
unfoldable pub has_null : List Ptr → Bool
has_null [] = false
has_null (arg ∷ args) = if arg == null then true else has_null args

-- `rte_eal_init`, with what DPDK answers; the result is the status and `count_out`
unfoldable pub rte_eal_init : (ret : ℤ) → (rte_errno : ℕ) → Ptr → List Ptr → Run (ℕ × ℤ)
rte_eal_init ret rte_errno argv args = if argv == null || has_null args then panic else elim ret [
  | pos n ↦ ok (0, pos n)
  | negsuc zero ↦ ok (rte_errno, negsuc 0)
  | negsuc (suc n) ↦ panic
]

-- `data()` of a vector: null while it has no item, else where its items stand
abbrev pub vector_data : Ptr → List Ptr → Ptr
vector_data at [] = null
vector_data at (x ∷ xs) = at

-- `dpdk_net_init`, with the arguments in the configuration if they are a sequence there, and the
-- number of ports that DPDK reports
unfoldable pub dpdk_net_init :
    (ret : ℤ) → (rte_errno nb_ports : ℕ) → (at : Ptr) → Option (List Ptr) → Run ℕ
dpdk_net_init ret rte_errno nb_ports at eal_init =
    let init_cargs : List Ptr = elim eal_init [ none ↦ [] | some args ↦ args ] in
    do
      (status, unused) ← rte_eal_init ret rte_errno (vector_data at init_cargs) init_cargs
      if status == 0 then if ltb 0 nb_ports then ok 0 else panic else panic

module _ (d : Driver) where
  -- a call whose answer is a status, behind the test of the port
  unfoldable pub checked_call : ℕ → Call → Calls → Run (ℕ × Calls)
  checked_call port call calls =
      if d.is_valid_port port
      then (do status ← to_status (d.answer calls call); ok (status, calls ++ (call ∷ [])))
      else panic

  -- `rte_eth_dev_info_get`, whose call of DPDK has no status; of the data, only defaults are used
  unfoldable pub rte_eth_dev_info_get : ℕ → Calls → Run (ℕ × Calls)
  rte_eth_dev_info_get port calls =
      if d.is_valid_port port then ok (0, calls ++ (dev_info_get port ∷ [])) else panic

  -- `rte_eth_dev_flow_ctrl_get` and `rte_eth_dev_flow_ctrl_set`
  unfoldable pub rte_eth_dev_flow_ctrl_get : ℕ → Calls → Run (ℕ × Calls)
  rte_eth_dev_flow_ctrl_get port = checked_call port (flow_ctrl_get port)

  unfoldable pub rte_eth_dev_flow_ctrl_set : ℕ → FcMode → Calls → Run (ℕ × Calls)
  rte_eth_dev_flow_ctrl_set port mode = checked_call port (flow_ctrl_set port mode)

  -- `rte_eth_rx_queue_setup` and `rte_eth_tx_queue_setup`, the second with the one field of its
  -- configuration that the program sets
  unfoldable pub rte_eth_rx_queue_setup :
      (port queue nb_rxd socket : ℕ) → Ptr → Calls → Run (ℕ × Calls)
  rte_eth_rx_queue_setup port queue nb_rxd socket pool =
      checked_call port (rx_queue_setup port queue nb_rxd socket pool)

  unfoldable pub rte_eth_tx_queue_setup :
      (port queue nb_txd socket tx_rs_thresh : ℕ) → Calls → Run (ℕ × Calls)
  rte_eth_tx_queue_setup port queue nb_txd socket tx_rs_thresh =
      checked_call port (tx_queue_setup port queue nb_txd socket tx_rs_thresh)

  -- `-rte_eth_dev_configure`: the function passes the answer on, 0 or a negative number, and its
  -- caller negates it
  unfoldable pub rte_eth_dev_configure :
      (port rx_rings tx_rings max_rx_pkt_len : ℕ) → Calls → Run (ℕ × Calls)
  rte_eth_dev_configure port rx_rings tx_rings max_rx_pkt_len =
      checked_call port (dev_configure port rx_rings tx_rings max_rx_pkt_len)

  -- `rte_eth_dev_socket_id`: the status and `sockid_out`
  unfoldable pub rte_eth_dev_socket_id : ℕ → Calls → Run (ℕ × ℕ × Calls)
  rte_eth_dev_socket_id port calls = do
    (ret, sockid_out) ← to_socket (d.answer calls (dev_socket_id port))
    ok (ret, sockid_out, calls ++ (dev_socket_id port ∷ []))

  -- `PSP_OK(-rte_eth_dev_start(port_id))`, a call of DPDK itself
  unfoldable pub start : ℕ → Calls → Run Calls
  start port calls = elim (d.answer calls (dev_start port)) [
    | pos zero ↦ ok (calls ++ (dev_start port ∷ []))
    | _ ↦ panic
  ]

  -- `rte_eth_link_get_nowait`: whether the link is up
  unfoldable pub rte_eth_link_get_nowait : ℕ → Calls → Run (Bool × Calls)
  rte_eth_link_get_nowait port calls =
      if d.is_valid_port port then ok (d.link_up calls, calls ++ (link_get port ∷ [])) else panic

  -- `print_link_status`, which asks for the link when it is given none
  unfoldable pub print_link_status : ℕ → Option Bool → Calls → Run Calls
  print_link_status port link calls =
      if d.is_valid_port port
      then elim link [
        | some up ↦ ok calls
        | none ↦ do (up, calls') ← rte_eth_link_get_nowait port calls; ok calls'
      ]
      else panic

  -- the loop of `wait_for_link_status_up`, for so many rounds, with the link that was read last
  unfoldable pub poll_link : (rounds port : ℕ) → Bool → Calls → Run (ℕ × Calls)
  poll_link zero port link calls = do
    calls' ← print_link_status port (some link) calls
    ok (econnrefused, calls')
  poll_link (suc rounds) port link calls = do
    (up, calls') ← rte_eth_link_get_nowait port calls
    if up
        then (do calls'' ← print_link_status port (some up) calls'; ok (0, calls''))
        else poll_link rounds port up (calls' ++ (delay_ms 100 ∷ []))

  -- `wait_for_link_status_up`
  unfoldable pub wait_for_link_status_up : ℕ → Calls → Run (ℕ × Calls)
  wait_for_link_status_up port calls =
      if d.is_valid_port port then poll_link 90 port false calls else panic

  -- the loops over the queues, from queue `i` on
  unfoldable pub rx_queues : (left i port nb_rxd socket : ℕ) → Ptr → Calls → Run Calls
  rx_queues zero i port nb_rxd socket pool calls = ok calls
  rx_queues (suc left) i port nb_rxd socket pool calls = do
    calls' ← psp_ok (rte_eth_rx_queue_setup port i nb_rxd socket pool calls)
    rx_queues left (i + 1) port nb_rxd socket pool calls'

  unfoldable pub tx_queues : (left i port nb_txd socket : ℕ) → Calls → Run Calls
  tx_queues zero i port nb_txd socket calls = ok calls
  tx_queues (suc left) i port nb_txd socket calls = do
    calls' ← psp_ok (rte_eth_tx_queue_setup port i nb_txd socket default_tx_rs_thresh calls)
    tx_queues left (i + 1) port nb_txd socket calls'

  -- the part of `init_dpdk_port` that sets the queues up and starts the port
  unfoldable pub start_port :
      (port n_tx_rings n_rx_rings socket_id : ℕ) → Ptr → Calls → Run (ℤ × Calls)
  start_port port n_tx_rings n_rx_rings socket_id pool c3 = do
    c4 ← rx_queues n_rx_rings 0 port (d.rx_desc rx_ring_size) socket_id pool c3
    c5 ← tx_queues n_tx_rings 0 port (d.tx_desc tx_ring_size) socket_id c4
    c6 ← start port c5
    c7 ← psp_ok (rte_eth_dev_flow_ctrl_get port c6)
    c8 ← psp_ok (rte_eth_dev_flow_ctrl_set port fc_none c7)
    c9 ← psp_ok (wait_for_link_status_up port c8)
    c10 ← psp_ok (rte_eth_dev_info_get port c9)
    ok (pos 0, c10)

  -- the part behind the adjustment of the descriptors, which returned `retval`
  unfoldable pub when_adjusted :
      (port n_tx_rings n_rx_rings : ℕ) → Ptr → (retval : ℤ) → Calls → Run (ℤ × Calls)
  when_adjusted port n_tx_rings n_rx_rings pool (pos zero) c2 = do
    (ret, socket_id, c3) ← rte_eth_dev_socket_id port c2
    start_port port n_tx_rings n_rx_rings (if ret == 0 then socket_id else 0) pool c3
  when_adjusted port n_tx_rings n_rx_rings pool retval c2 = ok (retval, c2)

  -- `init_dpdk_port`: the result and the calls made
  unfoldable pub init_dpdk_port :
      (port : ℕ) → (mbuf_pool : Ptr) → (n_tx_rings n_rx_rings : ℕ) → Calls → Run (ℤ × Calls)
  init_dpdk_port port mbuf_pool n_tx_rings n_rx_rings calls =
      if d.is_valid_port port
      then (do
        c0 ← psp_ok (rte_eth_dev_info_get port calls)
        c1 ← psp_ok (rte_eth_dev_configure port n_rx_rings n_tx_rings 1024 c0)
        let adjust = adjust_nb_rx_tx_desc port rx_ring_size tx_ring_size in
            when_adjusted port n_tx_rings n_rx_rings mbuf_pool (d.answer c1 adjust)
              (c1 ++ (adjust ∷ [])))
      else panic
