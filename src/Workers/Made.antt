-- ===== src/Workers/Made.antt =====
-- The loop that makes the workers of the application.
use psp.Base.{
  ℕ, zero, suc, Ptr, ◌+◌, ◌-◌, ◌≤◌, ◌<◌, ◌≡◌, refl, sym, ◌∙◌, false, ltb, ltb→lt, not_ltb→le,
  lt→ltb, inl, inr, Bool-cases, List, length, some, arith, sub32, add32, update, update_self,
  update_ne, ok,
}
use mathlib.Core.Path.{subst}
use native.Mathlib.Nat.{add-zero}
use psp.Sampling.{at}
use psp.Sampling.Count.{at-inside}
use psp.Workers.{
  Globals, Worker, WorkerType, new_peer, put_worker, create_worker, count_worker, make_workers,
}
use psp.Workers.Links.{
  Allocates, Joined, worker_end, dispatcher_end, memory_after, register_dpt-ends, ends-Joined,
  Joined-kept,
}

-- what the setting of the mask of free workers leaves
abbrev pub masked : ℕ → Globals → Globals
masked mask s = record s { dpts = update s.dpts 0 (record (s.dpts 0) { free_peers = mask }) }

module _ (cpus : List ℕ) (peer_ids : ℕ → ℕ) (alloc : ℕ → Ptr) (works : Allocates alloc)
    (netw : Worker) (class : WorkerType) where
  -- the application's worker at place `i`
  pub record IsWorker (i : ℕ) (s : Globals) : Type 0 where
    pub worker : Worker
    pub there : s.workers i ≡ some worker
    pub type : worker.type ≡ class
    pub id : worker.peer.worker_id ≡ i
    pub dpt_id : worker.peer.dpt_id ≡ 0
    pub cpu : at cpus i ≡ ok worker.cpu_id
    pub udp : worker.udp_id ≡ i
    pub ip : worker.ip ≡ netw.ip
    pub port : worker.port ≡ netw.port
    pub joined : Joined alloc i (i - 1) worker.peer (s.dpts 0).peer s.mem

  -- one net worker and the application's workers at the places from 1 to `n - 1`
  pub record IsMade (n : ℕ) (s : Globals) : Type 0 where
    pub some_net : 1 ≤ n
    pub total : s.total_workers ≡ n
    pub counted : (s.dpts 0).n_workers ≡ n - 1
    pub n_peers : (s.dpts 0).peer.n_peers ≡ n - 1
    pub dispatcher : (s.dpts 0).peer.worker_id ≡ 0
    pub tqs : s.n_tqs ≡ n
    pub rqs : s.n_rqs ≡ 1
    pub peers : (k : ℕ) → k < n - 1 → (s.dpts 0).peer.peer_ids k ≡ k
    pub net : s.workers 0 ≡ some netw
    pub app : (i : ℕ) → 1 ≤ i → i < n → IsWorker i s

  -- the state after a worker was made for place `n` on a processor
  abbrev made : (n cpu : ℕ) → Globals → Globals
  made n cpu s = record s {
    total_workers = add32 s.total_workers 1;
    dpts = update s.dpts 0 (record (s.dpts 0) {
      peer = dispatcher_end alloc works n (new_peer peer_ids s.total_workers) (s.dpts 0).peer;
    });
    mem = memory_after alloc works n s.mem;
    workers = update s.workers n (
        some (record {
          type = class;
          peer = worker_end alloc works n (new_peer peer_ids s.total_workers) (s.dpts 0).peer;
          cpu_id = cpu;
          udp_id = n;
          ip = netw.ip;
          port = netw.port;
          terminate = false;
        }));
  }

  create_worker-made :
      (n cpu : ℕ) (s : Globals)
      → n < 32
      → at cpus n ≡ ok cpu
      → create_worker cpus peer_ids alloc n 0 netw class s ≡ ok (made n cpu s)
  unfolding create_worker put_worker
  create_worker-made n cpu s few found =
      rw
        (
          register_dpt-ends alloc works n (new_peer peer_ids s.total_workers) (s.dpts 0).peer s.mem,
          found,
          lt→ltb n 32 few,
        )
        refl

  module _ (n cpu : ℕ) (s : Globals) (few : n < 32) (found : at cpus n ≡ ok cpu)
      (m : IsMade n s) where
    abbrev next : Globals
    next = count_worker cpus peer_ids alloc 0 (made n cpu s)

    place : sub32 s.total_workers 1 ≡ n - 1
    place = omega (arith, m.total, m.some_net)

    dpt_next :
        (next.dpts 0).peer
        ≡ dispatcher_end alloc works n (new_peer peer_ids s.total_workers) (s.dpts 0).peer
    unfolding update
    dpt_next = refl

    new-IsWorker : IsWorker n next
    new-IsWorker = record {
      worker = _;
      there = update_self s.workers n _;
      type = refl;
      id = m.total;
      dpt_id = m.dispatcher;
      cpu = found;
      udp = refl;
      ip = refl;
      port = refl;
      joined = rw dpt_next (
          ends-Joined alloc works n (n - 1) (new_peer peer_ids s.total_workers) (s.dpts 0).peer
            s.mem place);
    }

    old-IsWorker : (i : ℕ) → 1 ≤ i → i < n → IsWorker i s → IsWorker i next
    old-IsWorker i lo lt w = record {
      worker = w.worker;
      there = update_ne s.workers n _ i (λ e. omega (arith, e)) ∙ w.there;
      type = w.type;
      id = w.id;
      dpt_id = w.dpt_id;
      cpu = w.cpu;
      udp = w.udp;
      ip = w.ip;
      port = w.port;
      joined = rw dpt_next (
          Joined-kept alloc works i (i - 1) n w.worker.peer (s.dpts 0).peer
            (new_peer peer_ids s.total_workers) s.mem (λ e. omega (arith, e))
            (λ e. omega (arith, e, place)) w.joined);
    }

    next-IsMade : IsMade (n + 1) next
    unfolding update
    next-IsMade = record {
      some_net = omega arith;
      total = omega (arith, m.total);
      counted = omega (arith, m.counted, m.some_net);
      n_peers = omega (arith, m.n_peers, m.some_net);
      dispatcher = m.dispatcher;
      tqs = omega (arith, m.tqs);
      rqs = m.rqs;
      peers = λ k lt. ground (arith, m.peers k, place, m.n_peers, m.some_net);
      net = update_ne s.workers n _ 0 (λ e. omega (arith, e, m.some_net)) ∙ m.net;
      app = λ i lo lt. elim (Bool-cases (ltb i n)) [
        | inl old ↦ old-IsWorker i lo (ltb→lt i n old) (m.app i lo (ltb→lt i n old))
        | inr new ↦
            let is : i ≡ n = omega (arith, not_ltb→le i n new) in
            subst (λ k. IsWorker k next) (sym is) new-IsWorker
      ];
    }

  pub masked-IsMade : (n mask : ℕ) (s : Globals) → IsMade n s → IsMade n (masked mask s)
  unfolding update
  masked-IsMade n mask s m = record {
    some_net = m.some_net;
    total = m.total;
    counted = m.counted;
    n_peers = m.n_peers;
    dispatcher = m.dispatcher;
    tqs = m.tqs;
    rqs = m.rqs;
    peers = m.peers;
    net = m.net;
    app = λ i lo lt.
        let w = m.app i lo lt in
        record {
          worker = w.worker;
          there = w.there;
          type = w.type;
          id = w.id;
          dpt_id = w.dpt_id;
          cpu = w.cpu;
          udp = w.udp;
          ip = w.ip;
          port = w.port;
          joined = w.joined;
        };
  }

  pub make_workers-IsMade :
      (left n : ℕ) (s : Globals)
      → n + left ≤ 32
      → n + left ≤ length cpus
      → IsMade n s
      → (s' : Globals) × (make_workers cpus peer_ids alloc left n 0 netw (some class) s ≡ ok s')
        × IsMade (n + left) s'
  unfolding make_workers
  make_workers-IsMade zero n s few cores m = (s, refl, subst (λ k. IsMade k s) (sym (add-zero n)) m)
  make_workers-IsMade (suc left) n s few cores m =
      let (cpu, found) = at-inside cpus n (omega arith) in
      let (s', runs, m') =
        make_workers-IsMade left (n + 1) (next n cpu s (omega arith) found m) (omega arith)
          (omega arith) (next-IsMade n cpu s (omega arith) found m) in
      (
        s',
        rw (create_worker-made n cpu s (omega arith) found, runs) refl,
        subst (λ k. IsMade k s') (omega arith) m',
      )
