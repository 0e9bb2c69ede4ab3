-- ===== src/Workers/Links.antt =====
-- The channels between the workers and their dispatcher.
use psp.Base.{
  ℕ, Ptr, null, ◌+◌, ◌*◌, ◌≡◌, ◌≢◌, refl, ◌∙◌, [], arith, ne→==, sub32, add64, update, update_self,
  update_ne, ok,
}
use psp.Lrpc.{Memory, lrpc_init_in, lrpc_init_out}
use psp.Lrpc.Linked.{Linked}
use psp.Lrpc.Runs.{IsCleared, fresh_out, fresh_in, fresh-Linked}
use psp.LrpcContext.{Peer, generate_lrpc_buffer, register_dpt}
use psp.LrpcContext.Pairing.{cleared, cleared-first, cleared-second}

-- a channel each way between a worker and place `k` of the dispatcher, over the worker's four blocks
pub record Joined (alloc : ℕ → Ptr) (i k : ℕ) (a b : Peer) (m : Memory) : Type 0 where
  pub ingress : a.lrpc_ctx.ingress 0 ≡ fresh_in (alloc (4 * i)) (alloc (4 * i + 1))
  pub egress : a.lrpc_ctx.egress 0 ≡ fresh_out (alloc (4 * i + 2)) (alloc (4 * i + 3))
  pub their_ingress : b.lrpc_ctx.ingress k ≡ fresh_in (alloc (4 * i + 2)) (alloc (4 * i + 3))
  pub their_egress : b.lrpc_ctx.egress k ≡ fresh_out (alloc (4 * i)) (alloc (4 * i + 1))
  pub first : IsCleared m (alloc (4 * i)) (alloc (4 * i + 1))
  pub second : IsCleared m (alloc (4 * i + 2)) (alloc (4 * i + 3))

pub Joined-to_dispatcher :
    {alloc : ℕ → Ptr} {i k : ℕ} {a b : Peer} {m : Memory}
    → Joined alloc i k a b m
    → Linked 0 0 [] (a.lrpc_ctx.egress 0) (b.lrpc_ctx.ingress k) m
Joined-to_dispatcher j = rw (j.egress, j.their_ingress) (fresh-Linked j.second)

pub Joined-to_worker :
    {alloc : ℕ → Ptr} {i k : ℕ} {a b : Peer} {m : Memory}
    → Joined alloc i k a b m
    → Linked 0 0 [] (b.lrpc_ctx.egress k) (a.lrpc_ctx.ingress 0) m
Joined-to_worker j = rw (j.ingress, j.their_egress) (fresh-Linked j.first)

-- the allocations succeed, and each gives a block of its own
pub record Allocates (alloc : ℕ → Ptr) : Type 0 where
  pub succeeds : (i : ℕ) → alloc i ≢ null
  pub distinct : (i j : ℕ) → alloc i ≡ alloc j → i ≡ j

module _ (alloc : ℕ → Ptr) (works : Allocates alloc) where
  -- the two ends after the registration of worker `a` for place `i`
  abbrev pub worker_end : ℕ → Peer → Peer → Peer
  worker_end i a b = record a {
    dpt_id = b.worker_id;
    lrpc_ctx = record {
      ingress = update a.lrpc_ctx.ingress 0 (fresh_in (alloc (4 * i)) (alloc (4 * i + 1)));
      egress = update a.lrpc_ctx.egress 0 (fresh_out (alloc (4 * i + 2)) (alloc (4 * i + 3)));
    };
    peer_ids = update a.peer_ids a.n_peers b.worker_id;
    n_peers = add64 a.n_peers 1;
  }

  abbrev pub dispatcher_end : ℕ → Peer → Peer → Peer
  dispatcher_end i a b = record b {
    lrpc_ctx = record {
      ingress =
          update b.lrpc_ctx.ingress (sub32 a.worker_id 1)
            (fresh_in (alloc (4 * i + 2)) (alloc (4 * i + 3)));
      egress =
          update b.lrpc_ctx.egress (sub32 a.worker_id 1)
            (fresh_out (alloc (4 * i)) (alloc (4 * i + 1)));
    };
    peer_ids = update b.peer_ids b.n_peers (sub32 a.worker_id 1);
    n_peers = add64 b.n_peers 1;
  }

  abbrev pub memory_after : ℕ → Memory → Memory
  memory_after i m =
      cleared (alloc (4 * i)) (alloc (4 * i + 1)) (alloc (4 * i + 2)) (alloc (4 * i + 3)) m

  pub register_dpt-ends :
      (i : ℕ) (a b : Peer) (m : Memory)
      → register_dpt
          (alloc (4 * i))
          (alloc (4 * i + 1))
          (alloc (4 * i + 2))
          (alloc (4 * i + 3))
          a
          b
          m
        ≡ ok (worker_end i a b, dispatcher_end i a b, memory_after i m)
  unfolding register_dpt generate_lrpc_buffer lrpc_init_in lrpc_init_out
  register_dpt-ends i a b m =
      rw
        (
          ne→== (alloc (4 * i)) null (works.succeeds (4 * i)),
          ne→== (alloc (4 * i + 1)) null (works.succeeds (4 * i + 1)),
          ne→== (alloc (4 * i + 2)) null (works.succeeds (4 * i + 2)),
          ne→== (alloc (4 * i + 3)) null (works.succeeds (4 * i + 3)),
        )
        refl

  pub apart : (i j : ℕ) → i ≢ j → alloc i ≢ alloc j
  apart i j ne e = ne (works.distinct i j e)

  -- a registration joins the worker to the dispatcher
  pub ends-Joined :
      (i k : ℕ) (a b : Peer) (m : Memory)
      → sub32 a.worker_id 1 ≡ k
      → Joined alloc i k (worker_end i a b) (dispatcher_end i a b) (memory_after i m)
  ends-Joined i k a b m at = record {
    ingress = update_self a.lrpc_ctx.ingress 0 (fresh_in (alloc (4 * i)) (alloc (4 * i + 1)));
    egress = update_self a.lrpc_ctx.egress 0 (fresh_out (alloc (4 * i + 2)) (alloc (4 * i + 3)));
    their_ingress = rw at (update_self b.lrpc_ctx.ingress k _);
    their_egress = rw at (update_self b.lrpc_ctx.egress k _);
    first =
        cleared-first (alloc (4 * i)) (alloc (4 * i + 1)) (alloc (4 * i + 2)) (alloc (4 * i + 3)) m
          (apart (4 * i) (4 * i + 2) (λ e. omega (arith, e)))
          (apart (4 * i + 1) (4 * i + 3) (λ e. omega (arith, e)));
    second =
        cleared-second (alloc (4 * i)) (alloc (4 * i + 1)) (alloc (4 * i + 2)) (alloc (4 * i + 3))
          m;
  }

  -- blocks that a registration does not use stay as they are
  after-IsCleared :
      (j t w : ℕ) (m : Memory)
      → t ≢ 4 * j
      → t ≢ 4 * j + 2
      → w ≢ 4 * j + 1
      → w ≢ 4 * j + 3
      → IsCleared m (alloc t) (alloc w)
      → IsCleared (memory_after j m) (alloc t) (alloc w)
  after-IsCleared j t w m t1 t2 w1 w2 c = record {
    table = λ i.
        rw
          (
            update_ne _ (alloc (4 * j + 2)) _ (alloc t) (apart t (4 * j + 2) t2),
            update_ne m.table (alloc (4 * j)) _ (alloc t) (apart t (4 * j) t1),
          )
          (c.table i);
    word =
        rw
          (
            update_ne _ (alloc (4 * j + 3)) _ (alloc w) (apart w (4 * j + 3) w2),
            update_ne m.word (alloc (4 * j + 1)) _ (alloc w) (apart w (4 * j + 1) w1),
          )
          c.word;
  }

  -- the registration of another worker leaves a worker joined
  pub Joined-kept :
      (i k j : ℕ) (a b new : Peer) (m : Memory)
      → i ≢ j
      → k ≢ sub32 new.worker_id 1
      → Joined alloc i k a b m
      → Joined alloc i k a (dispatcher_end j new b) (memory_after j m)
  Joined-kept i k j a b new m other place h = record {
    ingress = h.ingress;
    egress = h.egress;
    their_ingress =
        update_ne b.lrpc_ctx.ingress (sub32 new.worker_id 1) _ k place ∙ h.their_ingress;
    their_egress = update_ne b.lrpc_ctx.egress (sub32 new.worker_id 1) _ k place ∙ h.their_egress;
    first =
        after-IsCleared j (4 * i) (4 * i + 1) m (λ e. other (omega (arith, e)))
          (λ e. omega (arith, e)) (λ e. other (omega (arith, e))) (λ e. omega (arith, e)) h.first;
    second =
        after-IsCleared j (4 * i + 2) (4 * i + 3) m (λ e. omega (arith, e))
          (λ e. other (omega (arith, e))) (λ e. omega (arith, e)) (λ e. other (omega (arith, e)))
          h.second;
  }
