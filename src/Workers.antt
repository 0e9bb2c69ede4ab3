-- ===== src/Workers.antt =====
-- src/c++/libos/common/persephone.cc and include/psp/libos/persephone.hh: the workers that the
-- constructor of `Psp` makes, with their dispatcher, and the functions over all workers. What the
-- configuration says is an argument, and so is what `malloc` returns.
mod Examples
pub mod Find
pub mod Links
pub mod Made
pub mod Setup
use Prim.Native.String.{String}
use text.Mathlib.Text.{◌==◌ as str_eq}
use psp.Base.{
  ℕ, zero, suc, Ptr, ◌+◌, ◌-◌, ◌*◌, ◌%◌, ◌^◌, Bool, true, false, ◌||◌, Option, none, some, List, [],
  ◌∷◌, length, ltb, leb, ◌==◌, if◌then◌else◌, update, add32, Run, ok, panic, fault, ◌>>=◌,
}
use psp.Lrpc.{Memory}
use psp.LrpcContext.{LrpcContext, Peer, register_dpt}
use psp.Sampling.{at}
use psp.Config.Policy.{DispatchMode, str_to_dp}

-- `MAX_WORKERS`
abbrev pub max_workers : ℕ
max_workers = 32

-- `WorkerType`, and its numbers
pub data WorkerType : Type 0 where
  unknown_worker : WorkerType
  http : WorkerType
  store : WorkerType
  net : WorkerType
  dispatch_worker : WorkerType
  client_worker : WorkerType
  silo : WorkerType
  mbk : WorkerType
  rdb : WorkerType

abbrev pub worker_number : WorkerType → ℕ
worker_number unknown_worker = 0
worker_number http = 1
worker_number store = 2
worker_number net = 3
worker_number dispatch_worker = 4
worker_number client_worker = 5
worker_number silo = 6
worker_number mbk = 7
worker_number rdb = 8

-- a `Worker`, with the id and the address of its `UdpContext`
pub record Worker : Type 0 where
  pub type : WorkerType
  pub peer : Peer
  pub cpu_id : ℕ
  pub udp_id : ℕ
  pub ip : ℕ
  pub port : ℕ
  pub terminate : Bool

-- the dispatcher of a net worker
pub record Dispatcher : Type 0 where
  pub peer : Peer
  pub dp : DispatchMode
  pub n_workers : ℕ
  pub free_peers : ℕ

-- the global variables, the dispatchers by the place of their net worker, and the numbers of queues
pub record Globals : Type 0 where
  pub workers : ℕ → Option Worker
  pub total_workers : ℕ
  pub dpts : ℕ → Dispatcher
  pub n_tqs : ℕ
  pub n_rqs : ℕ
  pub mem : Memory

-- what the configuration says of a net worker, and of the application's workers
pub record NetNode : Type 0 where
  pub ip : ℕ
  pub port : ℕ
  pub mode : String

pub record AppNode : Type 0 where
  pub number : ℕ
  pub type : String

-- `Worker(type)` and `LrpcContext()`; `peer_ids` is not initialised
abbrev pub no_channels : LrpcContext
no_channels = record {
  ingress = λ k. record { tbl = 0; recv_head_wb = 0; recv_head = 0; size = 0 };
  egress = λ k. record { tbl = 0; recv_head_wb = 0; send_head = 0; send_tail = 0; size = 0 };
}

abbrev pub new_peer : (peer_ids : ℕ → ℕ) → ℕ → Peer
new_peer peer_ids id = record {
  worker_id = id;
  dpt_id = 2 ^ 32 - 1;
  n_peers = 0;
  peer_ids = peer_ids;
  lrpc_ctx = no_channels;
}

-- `workers[i] = w`
unfoldable pub put_worker : ℕ → Worker → Globals → Run Globals
put_worker i w s =
    if ltb i max_workers then ok (record s { workers = update s.workers i (some w) }) else fault

-- `get_workers`, from place `i` on
unfoldable pub get_workers_from : (left i : ℕ) → WorkerType → (ℕ → Option Worker) → Run (List ℕ)
get_workers_from zero i type workers = ok []
get_workers_from (suc left) i type workers = do
  rest ← get_workers_from left (i + 1) type workers
  elim (workers i) [
    | none ↦ fault
    | some w ↦ ok (if worker_number w.type == worker_number type then i ∷ rest else rest)
  ]

-- `get_workers`: the places of the workers of a type
unfoldable pub get_workers : WorkerType → Globals → Run (List ℕ)
get_workers type s = get_workers_from s.total_workers 0 type s.workers

-- `stop_all`, for the workers from place `i` on
unfoldable pub stop_from : (left i : ℕ) → (ℕ → Option Worker) → Run (ℕ → Option Worker)
stop_from zero i workers = ok workers
stop_from (suc left) i workers = elim (workers i) [
  | none ↦ fault
  | some w ↦ stop_from left (i + 1) (update workers i (some (record w { terminate = true })))
]

unfoldable pub stop_all : Globals → Run Globals
stop_all s = do workers ← stop_from s.total_workers 0 s.workers; ok (record s { workers = workers })

-- the class of the application's workers
unfoldable pub worker_class : String → Option WorkerType
worker_class type =
    if str_eq type "MB" || str_eq type "TPCC"
    then some mbk
    else if str_eq type "ROCKSDB"
    then some rdb
    else none

module _ (cpus : List ℕ) (peer_ids : ℕ → ℕ) (alloc : ℕ → Ptr) where
  -- the loop over the net workers, from place `i` on; a net worker's dispatcher has its id
  unfoldable pub make_net_workers : ℕ → List NetNode → Globals → Run Globals
  make_net_workers i [] s = ok s
  make_net_workers i (node ∷ nodes) s = do
    let id = s.total_workers
    cpu ← at cpus i
    s' ←
        put_worker i
          (record {
            type = net;
            peer = new_peer peer_ids id;
            cpu_id = cpu;
            udp_id = i;
            ip = node.ip;
            port = node.port;
            terminate = false;
          })
          (record s {
            total_workers = add32 id 1;
            dpts = update s.dpts i (record {
              peer = new_peer peer_ids id;
              dp = str_to_dp node.mode;
              n_workers = 0;
              free_peers = 0;
            });
            n_tqs = (s.n_tqs + 1) % 2 ^ 16;
            n_rqs = (s.n_rqs + 1) % 2 ^ 16;
          })
    make_net_workers (i + 1) nodes s'

  -- `CreateWorker` for place `i`, with the dispatcher and the address of the net worker at place `d`
  unfoldable pub create_worker : ℕ → ℕ → Worker → WorkerType → Globals → Run Globals
  create_worker i d netw class s = do
    let id = s.total_workers
    (peer, dpt_peer, mem) ←
        register_dpt (alloc (4 * i)) (alloc (4 * i + 1)) (alloc (4 * i + 2)) (alloc (4 * i + 3))
          (new_peer peer_ids id) (s.dpts d).peer s.mem
    cpu ← at cpus i
    put_worker i
        (record {
          type = class;
          peer = peer;
          cpu_id = cpu;
          udp_id = i;
          ip = netw.ip;
          port = netw.port;
          terminate = false;
        })
        (record s {
          total_workers = add32 id 1;
          dpts = update s.dpts d (record (s.dpts d) { peer = dpt_peer });
          mem = mem;
        })

  -- the end of a round: the dispatcher counts the worker, whether one was made or not
  abbrev pub count_worker : ℕ → Globals → Globals
  count_worker d s = record s {
    dpts = update s.dpts d (record (s.dpts d) { n_workers = add32 (s.dpts d).n_workers 1 });
    n_tqs = (s.n_tqs + 1) % 2 ^ 16;
  }

  -- the loop over the application's workers, from place `i` on
  unfoldable pub make_workers : (left i d : ℕ) → Worker → Option WorkerType → Globals → Run Globals
  make_workers zero i d netw class s = ok s
  make_workers (suc left) i d netw class s = do
    s' ← elim class [ none ↦ ok s | some c ↦ create_worker i d netw c s ]
    make_workers left (i + 1) d netw class (count_worker d s')

  -- the net worker at the first place
  unfoldable pub first_net : Globals → Run (ℕ × Worker)
  first_net s = do
    nets ← get_workers net s
    elim nets [ [] ↦ fault | d ∷ _ ↦ elim (s.workers d) [ none ↦ fault | some w ↦ ok (d, w) ] ]

  -- the part of the constructor that makes the workers; `exit` is `panic`
  unfoldable pub make_all : Option (List NetNode) → Option AppNode → Globals → Run Globals
  make_all none app s = panic
  make_all (some nodes) app s = do
    s1 ← make_net_workers 0 nodes s
    first ← first_net s1
    elim app [
      | none ↦ ok s1
      | some node ↦ (do
        s2 ← make_workers node.number (length nodes) first.0 first.1 (worker_class node.type) s1
        if leb (s2.dpts first.0).n_workers 32
            then ok (record s2 {
              dpts =
                  update s2.dpts first.0
                    (record (s2.dpts first.0) { free_peers = 2 ^ (s2.dpts first.0).n_workers - 1 });
            })
            else fault)
    ]
