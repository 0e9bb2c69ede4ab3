-- ===== src/Dpdk/Examples.antt =====
-- A port with two queues on a driver that accepts everything, and one whose link needs two polls.
use psp.Base.{◌≡◌, refl, true, [], ◌∷◌, length, ltb, arith, pos, ok, panic}
use psp.Dpdk.{Calls, Driver, init_dpdk_port, rte_eal_init, dpdk_net_init}
use psp.Dpdk.Accepts.{Accepts, init_dpdk_port-Accepts}

abbrev pub willing : Driver
willing = record {
  is_valid_port = λ port. true;
  answer = λ calls call. pos 0;
  link_up = λ calls. true;
  rx_desc = λ n. n;
  tx_desc = λ n. n;
}

abbrev slow : Driver
slow = record willing { link_up = λ calls. ltb 3 (length calls) }

willing-Accepts : Accepts willing 0
willing-Accepts = record {
  valid = refl;
  accepted = λ calls call. refl;
  link = λ calls down. absurd (cc (down.0));
}

-- the configuration must give arguments
no_arguments : dpdk_net_init (pos 0) 0 1 8 psp.Base.none ≡ panic
unfolding dpdk_net_init rte_eal_init
no_arguments = refl

init_dpdk_port-Accepts_example : (c : Calls) × (init_dpdk_port willing 0 64 2 1 [] ≡ ok (pos 0, c))
init_dpdk_port-Accepts_example = init_dpdk_port-Accepts willing 0 willing-Accepts 2 1 64 []
