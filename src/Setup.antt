-- ===== src/Setup.antt =====
-- src/c++/apps/client/common.hh and client.cc: what `parse_config` makes of the client's
-- configuration, the single schedule of the command line, and the clients with their processors and
-- contexts. What the files say is an argument, addresses are kept as their text, and the generation of
-- requests from a schedule is left out.
mod Examples
pub mod Ready
pub mod Placed
use Prim.Native.String.{String}
use psp.Base.{
  ℕ, zero, suc, ◌+◌, ◌%◌, Bool, true, false, Option, none, some, List, [], ◌∷◌, length, ltb, ◌==◌,
  if◌then◌else◌, add64, Run, ok, panic, ◌>>=◌,
}
use psp.ClientTypes.{PktType, psp_mb, ix, raw, str_to_ptype}
use psp.Sampling.{at}

-- an item of `schedules` in the file, with the number of its ratios
pub record ScheduleNode : Type 0 where
  pub duration : ℕ
  pub uniform : Bool
  pub ptype : String
  pub pkt_size : Option ℕ
  pub n_ratios : ℕ
  pub cmd_lists : Option (List String)
  pub cmd_mean_ns : Option (List ℕ)

pub record ConfigFile : Type 0 where
  pub cpus : Option (List ℕ)
  pub net_workers : Option (List String)
  pub schedules : Option (List ScheduleNode)

-- what the command line says
pub record Arguments : Type 0 where
  pub remote_ips : List String
  pub remote_ports : List ℕ
  pub duration : ℕ
  pub cmd_lists : List String
  pub n_ratios : ℕ
  pub uniform : Bool
  pub mb_reqs : Bool
  pub ix_reqs : Bool
  pub pkt_size : ℕ

-- the fields of a `UdpContext` that say where its packets come from and go to
pub record NetContext : Type 0 where
  pub id : ℕ
  pub ip : String
  pub port : ℕ
  pub remote_ip : String
  pub remote_port : ℕ

-- the fields of a `Schedule` that are read before its requests are generated; times are in seconds
pub record Settings : Type 0 where
  pub schedule_id : ℕ
  pub duration : ℕ
  pub max_duration : ℕ
  pub uniform : Bool
  pub ptype : PktType
  pub pkt_size : ℕ
  pub n_ratios : ℕ
  pub requests_str : List (List String)
  pub reqs_us : List ℕ

-- a `Client` before it is launched
pub record NewClient : Type 0 where
  pub schedules : List Settings
  pub cpu_id : ℕ
  pub udp_ctx : NetContext

-- `PSP_TRUE`
abbrev pub require {ℓ} : {A : Type ℓ} → Bool → Run A → Run A
require true r = r
require false r = panic

-- a key that must be there
abbrev pub defined {ℓ} : {A : Type ℓ} → Option A → Run A
defined none = panic
defined (some a) = ok a

-- the context of a net worker. A vector of addresses without items makes the code divide by zero,
-- which is `fault` as a read of such a vector is.
unfoldable pub net_context : List String → List String → List ℕ → ℕ → Run NetContext
net_context ips remote_ips remote_ports i = do
  ip ← at ips i
  remote_ip ← at remote_ips (i % length remote_ips)
  remote_port ← at remote_ports (i % length remote_ports)
  ok (record {
    id = i;
    ip = ip;
    port = 32768 + i % 32767;
    remote_ip = remote_ip;
    remote_port = remote_port;
  })

-- the contexts of the net workers from `i` on
unfoldable pub net_contexts :
    (left i : ℕ) → List String → List String → List ℕ → Run (List NetContext)
net_contexts zero i ips remote_ips remote_ports = ok []
net_contexts (suc left) i ips remote_ips remote_ports = do
  ctx ← net_context ips remote_ips remote_ports i
  rest ← net_contexts left (i + 1) ips remote_ips remote_ports
  ok (ctx ∷ rest)

abbrev pub is_raw : PktType → Bool
is_raw raw = true
is_raw t = false

abbrev pub is_timed : PktType → Bool
is_timed psp_mb = true
is_timed ix = true
is_timed t = false

-- the lines of a file, if it can be opened, and `std::stoi` with the conversion to 32 bits, which
-- throws for some texts; nothing catches that
module _ (file_lines : String → Option (List String)) (stoi : String → Option ℕ) where
  -- `read_cmds`
  unfoldable pub read_cmds : String → Run (List String)
  read_cmds cmd_list = defined (file_lines cmd_list)

  -- the loop that reads the lists of commands
  unfoldable pub read_lists : List String → Run (List (List String))
  read_lists [] = ok []
  read_lists (cmd_list ∷ cmd_lists) = do
    requests ← read_cmds cmd_list
    require (ltb 0 (length requests)) (do rest ← read_lists cmd_lists; ok (requests ∷ rest))

  -- the loop that reads the work times from the first commands
  unfoldable pub read_times : List (List String) → Run (List ℕ)
  read_times [] = ok []
  read_times (r ∷ requests_str) = do
    cmd ← at r 0
    time ← defined (stoi cmd)
    rest ← read_times requests_str
    ok (time ∷ rest)

  abbrev pub times_for : PktType → List (List String) → Run (List ℕ)
  times_for t requests_str = if is_timed t then read_times requests_str else ok []

  -- the requests and the work times of a schedule in the file
  unfoldable pub read_requests :
      PktType
      → (n_ratios : ℕ) → (cmd_lists : Option (List String)) → (cmd_mean_ns : Option (List ℕ))
      → Run (List (List String) × List ℕ)
  read_requests t n_ratios (some cmd_lists) cmd_mean_ns = require (length cmd_lists == n_ratios) (do
    requests_str ← read_lists cmd_lists
    reqs_us ← times_for t requests_str
    ok (requests_str, reqs_us))
  read_requests t n_ratios none cmd_mean_ns = do
    means ← defined cmd_mean_ns
    require (length means == n_ratios) (ok ([], means))

  unfoldable pub read_schedule : ℕ → ScheduleNode → Run Settings
  read_schedule i node =
      let t : PktType = str_to_ptype node.ptype in
      (do
        size ← if is_raw t then defined node.pkt_size else ok 0
        requests ← read_requests t node.n_ratios node.cmd_lists node.cmd_mean_ns
        ok (record {
          schedule_id = i;
          duration = node.duration;
          max_duration = add64 node.duration 5;
          uniform = node.uniform;
          ptype = t;
          pkt_size = size;
          n_ratios = node.n_ratios;
          requests_str = requests.0;
          reqs_us = requests.1;
        }))

  -- the schedules of a net worker, from `i` on
  unfoldable pub read_schedules : ℕ → List ScheduleNode → Run (List Settings)
  read_schedules i [] = ok []
  read_schedules i (node ∷ nodes) = do
    sched ← read_schedule i node
    rest ← read_schedules (i + 1) nodes
    ok (sched ∷ rest)

  -- the loop over the net workers, each of which reads all schedules again
  unfoldable pub read_workers : ℕ → List ScheduleNode → Run (List (List Settings))
  read_workers zero nodes = ok []
  read_workers (suc n) nodes = do
    schedules ← read_schedules 0 nodes
    rest ← read_workers n nodes
    ok (schedules ∷ rest)

  -- without schedules in the file there are no workers yet
  abbrev pub given_workers : ℕ → Option (List ScheduleNode) → Run (List (List Settings))
  given_workers n (some nodes) = read_workers n nodes
  given_workers n none = ok []

  -- `parse_config`: the processors, the contexts, and the schedules of each worker
  unfoldable pub parse_config :
      ConfigFile → Arguments → Run (List ℕ × List NetContext × List (List Settings))
  parse_config config args = do
    cpus ← defined config.cpus
    net_workers ← defined config.net_workers
    contexts ← net_contexts (length net_workers) 0 net_workers args.remote_ips args.remote_ports
    workers ← given_workers (length net_workers) config.schedules
    ok (cpus, contexts, workers)

  -- `main`: the schedule of the command line
  unfoldable pub default_schedule : Arguments → Run Settings
  default_schedule args =
      let t : PktType = if args.ix_reqs then ix else if args.mb_reqs then psp_mb else raw in
      require (length args.cmd_lists == args.n_ratios) (do
        requests_str ← read_lists args.cmd_lists
        size ← if is_raw t then require (ltb 0 args.pkt_size) (ok args.pkt_size) else ok 0
        reqs_us ← times_for t requests_str
        ok (record {
          schedule_id = 0;
          duration = args.duration;
          max_duration = add64 args.duration 5;
          uniform = args.uniform;
          ptype = t;
          pkt_size = size;
          n_ratios = args.n_ratios;
          requests_str = requests_str;
          reqs_us = reqs_us;
        }))

  -- the processor and the context of the client at place `i`
  unfoldable pub place_client : List ℕ → List NetContext → ℕ → List Settings → Run NewClient
  place_client cpus contexts i schedules = do
    cpu ← at cpus i
    ctx ← at contexts i
    ok (record { schedules = schedules; cpu_id = cpu; udp_ctx = ctx })

  -- the loop that makes the clients from place `i` on with a schedule of the command line each
  unfoldable pub make_default :
      (left i : ℕ) → Arguments → List ℕ → List NetContext → Run (List NewClient)
  make_default zero i args cpus contexts = ok []
  make_default (suc left) i args cpus contexts = do
    sched ← default_schedule args
    w ← place_client cpus contexts i (sched ∷ [])
    rest ← make_default left (i + 1) args cpus contexts
    ok (w ∷ rest)

  -- the loop over the clients that have their schedules from the file
  unfoldable pub place_all :
      ℕ → List (List Settings) → List ℕ → List NetContext → Run (List NewClient)
  place_all i [] cpus contexts = ok []
  place_all i (schedules ∷ workers) cpus contexts = do
    w ← place_client cpus contexts i schedules
    rest ← place_all (i + 1) workers cpus contexts
    ok (w ∷ rest)

  abbrev pub clients_of :
      Arguments → List ℕ × List NetContext × List (List Settings) → Run (List NewClient)
  clients_of args (cpus, contexts, []) = make_default (length contexts) 0 args cpus contexts
  clients_of args (cpus, contexts, w ∷ ws) = place_all 0 (w ∷ ws) cpus contexts

  -- the part of `main` up to the set-up of the NIC, without `dpdk_net_init`
  unfoldable pub make_clients : ConfigFile → Arguments → Run (List NewClient)
  make_clients config args = do parsed ← parse_config config args; clients_of args parsed
