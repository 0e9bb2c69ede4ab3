-- ===== src/Workers/Setup.antt =====
-- The workers that the constructor makes for a configuration with one net worker.
use psp.Base.{
  ℕ, zero, suc, Ptr, ◌+◌, ◌-◌, ◌^◌, ◌≤◌, ◌<◌, ◌≡◌, refl, ap, ◌∙◌, true, false, leb, List, [], ◌∷◌,
  length, none, some, arith, update, update_ne, ◌≢◌, ok,
}
use psp.Sampling.{at}
use psp.Sampling.Count.{at-inside}
use psp.Config.Policy.{str_to_dp}
use psp.Workers.{
  Globals, Worker, WorkerType, net, NetNode, AppNode, new_peer, put_worker, get_workers,
  get_workers_from, worker_class, count_worker, make_net_workers, make_workers, first_net, make_all,
}
use psp.Workers.Links.{Allocates}
use psp.Workers.Made.{IsMade, masked, masked-IsMade, make_workers-IsMade}

-- the program before the constructor
pub record IsInitial (s : Globals) : Type 0 where
  pub total : s.total_workers ≡ 0
  pub tqs : s.n_tqs ≡ 0
  pub rqs : s.n_rqs ≡ 0

module _ (cpus : List ℕ) (peer_ids : ℕ → ℕ) (alloc : ℕ → Ptr) (node : NetNode) where
  -- the net worker on a processor, and the state that has only it
  abbrev pub net_worker : ℕ → Worker
  net_worker cpu = record {
    type = net;
    peer = new_peer peer_ids 0;
    cpu_id = cpu;
    udp_id = 0;
    ip = node.ip;
    port = node.port;
    terminate = false;
  }

  abbrev net_only : ℕ → Globals → Globals
  net_only cpu s = record s {
    total_workers = 1;
    dpts = update s.dpts 0 (record {
      peer = new_peer peer_ids 0;
      dp = str_to_dp node.mode;
      n_workers = 0;
      free_peers = 0;
    });
    n_tqs = 1;
    n_rqs = 1;
    workers = update s.workers 0 (some (net_worker cpu));
  }

  make_net-only :
      (cpu : ℕ) (s : Globals)
      → IsInitial s
      → at cpus 0 ≡ ok cpu
      → make_net_workers cpus peer_ids alloc 0 (node ∷ []) s ≡ ok (net_only cpu s)
  unfolding make_net_workers put_worker
  make_net-only cpu s new found = rw (found, new.total, new.tqs, new.rqs) refl

  first_net-only :
      (cpu : ℕ) (s : Globals)
      → first_net cpus peer_ids alloc (net_only cpu s) ≡ ok (0, net_worker cpu)
  unfolding first_net get_workers get_workers_from update
  first_net-only cpu s = refl

  -- what the constructor leaves of the application's workers
  make_all-steps :
      (cpu : ℕ) (app : AppNode) (s s2 : Globals)
      → IsInitial s
      → at cpus 0 ≡ ok cpu
      → make_workers cpus peer_ids alloc app.number 1 0
          (net_worker cpu)
          (worker_class app.type)
          (net_only cpu s)
        ≡ ok s2
      → leb (s2.dpts 0).n_workers 32 ≡ true
      → make_all cpus peer_ids alloc (some (node ∷ [])) (some app) s
        ≡ ok (masked (2 ^ (s2.dpts 0).n_workers - 1) s2)
  unfolding make_all
  make_all-steps cpu app s s2 new found makes few =
      rw (make_net-only cpu s new found, first_net-only cpu s, makes, few) refl

  net_only-IsMade :
      (works : Allocates alloc) (class : WorkerType) (cpu : ℕ) (s : Globals)
      → IsMade cpus peer_ids alloc works (net_worker cpu) class 1 (net_only cpu s)
  unfolding update
  net_only-IsMade works class cpu s = record {
    some_net = omega arith;
    total = refl;
    counted = refl;
    n_peers = refl;
    dispatcher = refl;
    tqs = refl;
    rqs = refl;
    peers = λ k lt. absurd (omega arith);
    net = refl;
    app = λ i lo lt. absurd (omega arith);
  }

  -- For one net worker and a number of workers of a known type, together at most 32 and no more than
  -- the processors that are listed, and when the allocations succeed, the constructor makes a worker
  -- with the id of its place at each place: the net worker at 0, and behind it the application's
  -- workers, each with the processor of its place, the address of the net worker, and an empty channel
  -- to and from the dispatcher at the place in the dispatcher's channels that is its own less 1. The
  -- dispatcher has as many peers as there are workers of the application, the bits of the free ones
  -- are those of their channels, and the port gets a queue to send for each worker and one to receive.
  pub make_all-IsMade :
      (works : Allocates alloc) (class : WorkerType) (app : AppNode) (s : Globals)
      → IsInitial s
      → worker_class app.type ≡ some class
      → 1 + app.number ≤ 32
      → 1 + app.number ≤ length cpus
      → (cpu : ℕ) × (s' : Globals) × (make_all cpus peer_ids alloc (some (node ∷ [])) (some app) s
          ≡ ok s')
        × (at cpus 0 ≡ ok cpu)
        × IsMade cpus peer_ids alloc works (net_worker cpu) class (1 + app.number) s'
        × ((s'.dpts 0).free_peers ≡ 2 ^ app.number - 1)
  unfolding update
  make_all-IsMade works class app s new known few cores =
      let (cpu, found) = at-inside cpus 0 (omega arith) in
      let (s2, makes, m) =
        make_workers-IsMade cpus peer_ids alloc works (net_worker cpu) class app.number 1
          (net_only cpu s) few cores (net_only-IsMade works class cpu s) in
      let counted : (s2.dpts 0).n_workers ≡ app.number = omega (arith, m.counted) in
      (
        cpu,
        masked (2 ^ (s2.dpts 0).n_workers - 1) s2,
        make_all-steps cpu app s s2 new found (rw known makes) (ground (arith, counted)),
        found,
        masked-IsMade cpus peer_ids alloc works (net_worker cpu) class (1 + app.number) _ s2 m,
        ap (λ k. 2 ^ k - 1) counted,
      )

  -- the rounds of the loop that make no worker
  make_workers-none :
      (left i : ℕ) (netw : Worker) (s : Globals)
      → (s.dpts 0).n_workers + left < 2 ^ 32
      → (s' : Globals) × (make_workers cpus peer_ids alloc left i 0 netw none s ≡ ok s')
        × (s'.total_workers ≡ s.total_workers)
        × (s'.workers ≡ s.workers)
        × ((s'.dpts 0).n_workers ≡ (s.dpts 0).n_workers + left)
        × ((s'.dpts 0).peer ≡ (s.dpts 0).peer)
  unfolding make_workers update
  make_workers-none zero i netw s few = (s, refl, refl, refl, omega arith, refl)
  make_workers-none (suc left) i netw s few =
      let (s', runs, total, workers, counted, peer) =
        make_workers-none left (i + 1) netw (count_worker cpus peer_ids alloc 0 s) (omega arith) in
      (s', rw runs refl, total, workers, omega (arith, counted), peer)

  -- For one net worker and up to 32 workers of an unknown type, the constructor ends as if all was well,
  -- and its dispatcher has counted the workers and set a bit for each, but no worker of the
  -- application was made, and the dispatcher has no peer.
  pub make_all-unknown :
      (app : AppNode) (s : Globals)
      → IsInitial s
      → worker_class app.type ≡ none
      → app.number ≤ 32
      → 1 ≤ length cpus
      → (s' : Globals) × (make_all cpus peer_ids alloc (some (node ∷ [])) (some app) s ≡ ok s')
        × (s'.total_workers ≡ 1)
        × ((s'.dpts 0).n_workers ≡ app.number)
        × ((s'.dpts 0).free_peers ≡ 2 ^ app.number - 1)
        × ((s'.dpts 0).peer.n_peers ≡ 0)
        × ((i : ℕ) → i ≢ 0 → s'.workers i ≡ s.workers i)
  unfolding update
  make_all-unknown app s new unknown few cores =
      let (cpu, found) = at-inside cpus 0 cores in
      let (s2, makes, total, workers, counted, peer) =
        make_workers-none app.number 1 (net_worker cpu) (net_only cpu s) (omega arith) in
      let is : (s2.dpts 0).n_workers ≡ app.number = omega (arith, counted) in
      (
        masked (2 ^ (s2.dpts 0).n_workers - 1) s2,
        make_all-steps cpu app s s2 new found (rw unknown makes) (ground (arith, is)),
        total,
        is,
        ap (λ k. 2 ^ k - 1) is,
        ap (λ p. p.n_peers) peer,
        λ i ne. ap (λ f. f i) workers ∙ update_ne s.workers 0 _ i ne,
      )
