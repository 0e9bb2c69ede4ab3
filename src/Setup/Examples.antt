-- ===== src/Setup/Examples.antt =====
-- Two net workers with a schedule each, and one processor too few.
use Prim.Native.String.{String}
use psp.Base.{ℕ, ◌≡◌, refl, true, false, Option, none, some, List, [], ◌∷◌, ok, fault, Stops}
use psp.ClientTypes.{ix}
use psp.Sampling.{at}
use psp.Setup.{
  ScheduleNode, ConfigFile, Arguments, Settings, NewClient, net_context, net_contexts, read_cmds,
  read_lists, read_times, read_requests, read_schedule, read_schedules, read_workers, parse_config,
  place_client, place_all, make_clients,
}
use psp.Setup.Placed.{IsSetUp, make_clients-IsSetUp}

abbrev two_lines : String → Option (List String)
two_lines file = some ("10" ∷ "10" ∷ [])

abbrev ten : String → Option ℕ
ten cmd = some 10

abbrev node : ScheduleNode
node = record {
  duration = 20;
  uniform = true;
  ptype = "IX";
  pkt_size = none;
  n_ratios = 1;
  cmd_lists = some ("cmds" ∷ []);
  cmd_mean_ns = none;
}

abbrev config : List ℕ → ConfigFile
config cpus = record {
  cpus = some cpus;
  net_workers = some ("10.0.0.1" ∷ "10.0.0.2" ∷ []);
  schedules = some (node ∷ []);
}

abbrev args : Arguments
args = record {
  remote_ips = "10.0.0.9" ∷ [];
  remote_ports = 6789 ∷ 6790 ∷ [];
  duration = 10;
  cmd_lists = [];
  n_ratios = 0;
  uniform = false;
  mb_reqs = false;
  ix_reqs = false;
  pkt_size = 0;
}

abbrev sched : Settings
sched = record {
  schedule_id = 0;
  duration = 20;
  max_duration = 25;
  uniform = true;
  ptype = ix;
  pkt_size = 0;
  n_ratios = 1;
  requests_str = ("10" ∷ "10" ∷ []) ∷ [];
  reqs_us = 10 ∷ [];
}

abbrev client : (i cpu : ℕ) → (ip : String) → (port remote_port : ℕ) → NewClient
client i cpu ip port remote_port = record {
  schedules = sched ∷ [];
  cpu_id = cpu;
  udp_ctx = record {
    id = i;
    ip = ip;
    port = port;
    remote_ip = "10.0.0.9";
    remote_port = remote_port;
  };
}

two_clients :
    make_clients two_lines ten (config (3 ∷ 5 ∷ [])) args
    ≡ ok (client 0 3 "10.0.0.1" 32768 6789 ∷ client 1 5 "10.0.0.2" 32769 6790 ∷ [])
unfolding make_clients parse_config net_contexts net_context read_workers read_schedules
    read_schedule read_requests read_lists read_cmds read_times place_all place_client at
    psp.ClientTypes.str_to_ptype
two_clients = refl

one_processor : make_clients two_lines ten (config (3 ∷ [])) args ≡ fault
unfolding make_clients parse_config net_contexts net_context read_workers read_schedules
    read_schedule read_requests read_lists read_cmds read_times place_all place_client at
    psp.ClientTypes.str_to_ptype
one_processor = refl

make_clients-IsSetUp_example :
    Stops
      (IsSetUp (config (3 ∷ 5 ∷ [])) args)
      (make_clients two_lines ten (config (3 ∷ 5 ∷ [])) args)
make_clients-IsSetUp_example = make_clients-IsSetUp two_lines ten (config (3 ∷ 5 ∷ [])) args
