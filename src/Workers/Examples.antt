-- ===== src/Workers/Examples.antt =====
-- A net worker and two workers on three processors.
use psp.Base.{ℕ, Ptr, ◌+◌, ◌≡◌, ◌≢◌, refl, [], ◌∷◌, none, some, arith, ok}
use psp.Sampling.{at}
use psp.Config.Policy.{cfcfs}
use psp.Workers.{Globals, Worker, NetNode, mbk, new_peer, worker_class, make_all}
use psp.Workers.Links.{Allocates}
use psp.Workers.Made.{IsMade}
use psp.Workers.Setup.{IsInitial, net_worker, make_all-IsMade, make_all-unknown}

abbrev alloc : ℕ → Ptr
alloc i = i + 1

works : Allocates alloc
works = record { succeeds = λ i e. omega (arith, e); distinct = λ i j e. omega (arith, e) }

abbrev garbage : ℕ → ℕ
garbage k = 7

abbrev node : NetNode
node = record { ip = 1; port = 6789; mode = "CFCFS" }

abbrev start : Globals
start = record {
  workers = λ i. none;
  total_workers = 0;
  dpts = λ i. record { peer = new_peer garbage 0; dp = cfcfs; n_workers = 0; free_peers = 0 };
  n_tqs = 0;
  n_rqs = 0;
  mem = record { table = λ p i. record { cmd = 5; payload = 5 }; word = λ p. 5 };
}

start-IsInitial : IsInitial start
start-IsInitial = record { total = refl; tqs = refl; rqs = refl }

mb_class : worker_class "MB" ≡ some mbk
unfolding worker_class
mb_class = refl

no_class : worker_class "mb" ≡ none
unfolding worker_class
no_class = refl

make_all-IsMade_example :
    (cpu : ℕ) × (s' : Globals) × (make_all
        (2 ∷ 4 ∷ 6 ∷ [])
        garbage
        alloc
        (some (node ∷ []))
        (some (record { number = 2; type = "MB" }))
        start
      ≡ ok s')
    × (at (2 ∷ 4 ∷ 6 ∷ []) 0 ≡ ok cpu)
    × IsMade
        (2 ∷ 4 ∷ 6 ∷ [])
        garbage
        alloc
        works
        (net_worker (2 ∷ 4 ∷ 6 ∷ []) garbage alloc node cpu)
        mbk
        3
        s'
    × ((s'.dpts 0).free_peers ≡ 3)
make_all-IsMade_example =
    make_all-IsMade (2 ∷ 4 ∷ 6 ∷ []) garbage alloc node works mbk
      (record { number = 2; type = "MB" }) start start-IsInitial mb_class (omega arith)
      (omega arith)

make_all-unknown_example :
    (s' : Globals) × (make_all
        (2 ∷ 4 ∷ 6 ∷ [])
        garbage
        alloc
        (some (node ∷ []))
        (some (record { number = 2; type = "mb" }))
        start
      ≡ ok s')
    × (s'.total_workers ≡ 1)
    × ((s'.dpts 0).n_workers ≡ 2)
    × ((s'.dpts 0).free_peers ≡ 3)
    × ((s'.dpts 0).peer.n_peers ≡ 0)
    × ((i : ℕ) → i ≢ 0 → s'.workers i ≡ none)
make_all-unknown_example =
    make_all-unknown (2 ∷ 4 ∷ 6 ∷ []) garbage alloc node (record { number = 2; type = "mb" }) start
      start-IsInitial no_class (omega arith) (omega arith)

abbrev one_worker : Worker
one_worker = net_worker (2 ∷ []) garbage alloc node 2

abbrev running : Globals
running = record start { workers = λ i. some one_worker; total_workers = 2 }
