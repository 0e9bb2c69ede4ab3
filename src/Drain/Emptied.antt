-- ===== src/Drain/Emptied.antt =====
-- `drain_queue` against the queue of requests and the list of free peers.
use psp.Base.{
  ℕ, zero, suc, ◌+◌, ◌-◌, ◌%◌, ◌^◌, ◌<◌, ◌≡◌, ◌≢◌, refl, sym, ap, ◌∙◌, ◌&&◌, true, false, List, [],
  ◌∷◌, length, drop, min, ltb, lt→ltb, le→not_ltb, bit_and, bit_xor, add32, update_self, update_ne,
  ok, arith,
}
use mathlib.Core.Path.{subst}
use psp.Base.Bits.{bit_and-mask}
use psp.Lrpc.{Memory}
use psp.LrpcContext.{LrpcContext, push}
use psp.Request.{RequestType}
use psp.Request.Ring.{IsRing}
use psp.Drain.{Dispatching, ctz, dispatched, drain_queue}
use psp.Drain.Peers.{free_list, free_list-zero, ctz-IsLowest}

-- the requests, in their order, reach the peers, in their order, until either list ends
abbrev pub Sends :
    (q peers : List ℕ)
    → (ctx : LrpcContext) (m : Memory) (ctx' : LrpcContext) (m' : Memory) → Type 0
Sends [] peers ctx m ctx' m' = (ctx ≡ ctx') × (m ≡ m')
Sends (req ∷ q) [] ctx m ctx' m' = (ctx ≡ ctx') × (m ≡ m')
Sends (req ∷ q) (p ∷ peers) ctx m ctx' m' =
    (next : LrpcContext) × (mem : Memory) × (push req p ctx m ≡ ok (0, next, mem))
    × Sends q peers next mem ctx' m'

-- the dispatcher after so many requests of `q` were sent to `peers`
pub record IsDrained (k t : ℕ) (q ts peers : List ℕ) (ctx : LrpcContext) (m : Memory)
    (d d' : Dispatching) : Type 0 where
  pub ring :
      IsRing
        (t + min (length q) (length peers))
        (drop (length peers) q)
        (drop (length peers) ts)
        (d'.rtypes k)
  pub free : free_list 32 0 d'.free_peers ≡ drop (length q) peers
  pub sent : d'.num_dped ≡ (d.num_dped + min (length q) (length peers)) % 2 ^ 32
  pub ctx_after : d'.lrpc_ctx ≡ ctx
  pub mem_after : d'.mem ≡ m
  pub others : (j : ℕ) → j ≢ k → d'.rtypes j ≡ d.rtypes j

-- the ring without its first request
taken_off :
    (t req stamp : ℕ) (q ts : List ℕ) (r : RequestType)
    → IsRing t (req ∷ q) (stamp ∷ ts) r
    → IsRing (t + 1) q ts (record r { rqueue_tail = add32 r.rqueue_tail 1 })
taken_off t req stamp q ts r ring = record {
  requests = ring.requests.1;
  stamps = ring.stamps.1;
  same_length = omega (arith, ring.same_length);
  tail = omega (arith, ring.tail);
  head = omega (arith, ring.head);
  fits = omega (arith, ring.fits);
}

-- the request that is read, and the test of the loop
module _ (t req : ℕ) (q ts : List ℕ) (r : RequestType) (ring : IsRing t (req ∷ q) ts r)
    (small : t + suc (length q) < 2 ^ 32) where
  first_request : r.rqueue (bit_and r.rqueue_tail 4095) ≡ req
  first_request = rw (at) ring.requests.0
    where
      at : bit_and r.rqueue_tail 4095 ≡ t % 4096
      at = omega (arith, bit_and-mask 12 r.rqueue_tail, ring.tail)

  waits : ltb r.rqueue_tail r.rqueue_head ≡ true
  waits = lt→ltb r.rqueue_tail r.rqueue_head (omega (arith, ring.tail, ring.head))

nothing_waits :
    (t : ℕ) (ts : List ℕ) (r : RequestType)
    → IsRing t [] ts r
    → ltb r.rqueue_tail r.rqueue_head ≡ false
nothing_waits t ts r ring =
    le→not_ltb r.rqueue_tail r.rqueue_head (omega (arith, ring.tail, ring.head))

-- a mask with no peer, and one with peers
no_peer : (x : ℕ) → x < 2 ^ 32 → free_list 32 0 x ≡ [] → x ≡ 0
no_peer zero lt is = refl
no_peer (suc x) lt is = absurd (cc (sym is ∙ (ctz-IsLowest 32 0 (suc x) (omega arith) lt).first))

some_peer : (x p : ℕ) (peers : List ℕ) → free_list 32 0 x ≡ p ∷ peers → 0 < x
some_peer zero p peers is = absurd (cc (sym is ∙ free_list-zero 32 0))
some_peer (suc x) p peers is = omega arith

module _ (k tsc : ℕ) where
  -- what a run of `drain_queue` has to show
  abbrev Drained :
      (rounds t : ℕ) (q ts peers : List ℕ) (ctx : LrpcContext) (m : Memory) → Dispatching → Type 0
  Drained rounds t q ts peers ctx m d =
      (d' : Dispatching) × (drain_queue rounds k tsc d ≡ ok d')
      × IsDrained k t q ts peers ctx m d d'

  -- it stops at once, with the queue or the list of peers empty
  at_once :
      (rounds t : ℕ) (q ts peers : List ℕ) (ctx : LrpcContext) (m : Memory) (d : Dispatching)
      → (ltb (d.rtypes k).rqueue_tail (d.rtypes k).rqueue_head && ltb 0 d.free_peers) ≡ false
      → min (length q) (length peers) ≡ 0
      → drop (length peers) q ≡ q
      → drop (length peers) ts ≡ ts
      → drop (length q) peers ≡ peers
      → IsRing t q ts (d.rtypes k)
      → d.num_dped < 2 ^ 32
      → free_list 32 0 d.free_peers ≡ peers
      → (d.lrpc_ctx ≡ ctx) × (d.mem ≡ m)
      → Drained (suc rounds) t q ts peers ctx m d
  unfolding drain_queue
  at_once rounds t q ts peers ctx m d stops zero_sent same_q same_ts same_peers ring word list
        same =
      (
        d,
        rw stops refl,
        record {
          ring =
              rw (same_q, same_ts)
                (subst (λ j. IsRing j q ts (d.rtypes k)) (omega (arith, zero_sent)) ring);
          free = list ∙ sym same_peers;
          sent = omega (arith, zero_sent);
          ctx_after = same.0;
          mem_after = same.1;
          others = λ j ne. refl;
        },
      )

  -- one request is sent, and the rest of the run follows
  after_one :
      (rounds t req stamp p : ℕ) (q ts peers : List ℕ) (next : LrpcContext) (mem : Memory)
      (ctx : LrpcContext) (m : Memory) (d : Dispatching)
      → IsRing t (req ∷ q) (stamp ∷ ts) (d.rtypes k)
      → t + suc (length q) < 2 ^ 32
      → 0 < d.free_peers
      → ctz 32 d.free_peers ≡ p
      → push req p d.lrpc_ctx d.mem ≡ ok (0, next, mem)
      → Drained rounds (t + 1) q ts peers ctx m (dispatched k tsc p 0 next mem d)
      → Drained (suc rounds) t (req ∷ q) (stamp ∷ ts) (p ∷ peers) ctx m d
  unfolding drain_queue dispatched
  after_one rounds t req stamp p q ts peers next mem ctx m d ring small some_free lowest pushes
        (d', runs, h) =
      (
        d',
        rw
            (
              waits t req q (stamp ∷ ts) (d.rtypes k) ring small,
              lt→ltb 0 d.free_peers some_free,
              lowest,
              first_request t req q (stamp ∷ ts) (d.rtypes k) ring small,
              pushes,
            )
            runs,
        record {
          ring =
              subst (λ j. IsRing j (drop (length peers) q) (drop (length peers) ts) (d'.rtypes k))
                (omega arith) h.ring;
          free = h.free;
          sent = omega (arith, h.sent);
          ctx_after = h.ctx_after;
          mem_after = h.mem_after;
          others = λ j ne. h.others j ne ∙ update_ne d.rtypes k _ j ne;
        },
      )

-- the first peer, and the mask without it
mask_step :
    (x p : ℕ) (peers : List ℕ)
    → x < 2 ^ 32
    → free_list 32 0 x ≡ p ∷ peers
    → (ctz 32 x ≡ p) × (free_list 32 0 (bit_xor x (2 ^ p)) ≡ peers) × (bit_xor x (2 ^ p) < 2 ^ 32)
mask_step x p peers lt is =
    let low = ctz-IsLowest 32 0 x (some_peer x p peers is) lt in
    let both : (0 + ctz 32 x) ∷ free_list 32 0 (x - 2 ^ ctz 32 x) ≡ p ∷ peers =
      sym low.first ∙ is in
    let head : ctz 32 x ≡ p = omega (arith, heads both) in
    let flipped : bit_xor x (2 ^ p) ≡ x - 2 ^ ctz 32 x =
      subst (λ c. bit_xor x (2 ^ c) ≡ x - 2 ^ ctz 32 x) head low.flip in
    (head, ap (λ y. free_list 32 0 y) flipped ∙ tails both, omega (arith, flipped))
  where
    heads : {a b : ℕ} {xs ys : List ℕ} → a ∷ xs ≡ b ∷ ys → a ≡ b
    heads e = cc

    tails : {a b : ℕ} {xs ys : List ℕ} → a ∷ xs ≡ b ∷ ys → xs ≡ ys
    tails e = cc

-- `drain_queue` of a type ends within one more round than requests: when the pushes of the requests
-- that wait, in their order, to the free peers, in ascending order, all succeed until requests or peers
-- run out, it sends exactly those, takes them off the ring and their peers off the mask, and leaves
-- the other types alone. The counters of the ring must not have wrapped.
pub drain_queue-IsDrained :
    (k tsc rounds t : ℕ) (q ts peers : List ℕ) (ctx : LrpcContext) (m : Memory) (d : Dispatching)
    → length q < rounds
    → IsRing t q ts (d.rtypes k)
    → t + length q < 2 ^ 32
    → d.free_peers < 2 ^ 32
    → d.num_dped < 2 ^ 32
    → free_list 32 0 d.free_peers ≡ peers
    → Sends q peers d.lrpc_ctx d.mem ctx m
    → (d' : Dispatching) × (drain_queue rounds k tsc d ≡ ok d')
      × IsDrained k t q ts peers ctx m d d'
unfolding dispatched
drain_queue-IsDrained k tsc zero t q ts peers ctx m d fuel ring small mask word list sends =
    absurd (omega arith)
drain_queue-IsDrained k tsc (suc rounds) t [] (s ∷ ts) peers ctx m d fuel ring small mask word list
      sends =
    absurd (omega (arith, ring.same_length))
drain_queue-IsDrained k tsc (suc rounds) t [] [] [] ctx m d fuel ring small mask word list sends =
    at_once k tsc rounds t [] [] [] ctx m d (rw (nothing_waits t [] (d.rtypes k) ring) refl)
      (omega arith) refl refl refl ring word list sends
drain_queue-IsDrained k tsc (suc rounds) t [] [] (p ∷ peers) ctx m d fuel ring small mask word list
      sends =
    at_once k tsc rounds t [] [] (p ∷ peers) ctx m d
      (rw (nothing_waits t [] (d.rtypes k) ring) refl) (omega arith) refl refl refl ring word list
      sends
drain_queue-IsDrained k tsc (suc rounds) t (req ∷ q) ts [] ctx m d fuel ring small mask word list
      sends =
    let none_free : d.free_peers ≡ 0 = no_peer d.free_peers mask list in
    at_once k tsc rounds t (req ∷ q) ts [] ctx m d
      (rw (none_free, waits t req q ts (d.rtypes k) ring small) refl) (omega arith) refl refl refl
      ring word list sends
drain_queue-IsDrained k tsc (suc rounds) t (req ∷ q) [] (p ∷ peers) ctx m d fuel ring small mask
      word list sends =
    absurd (omega (arith, ring.same_length))
drain_queue-IsDrained k tsc (suc rounds) t (req ∷ q) (stamp ∷ ts) (p ∷ peers) ctx m d fuel ring
      small mask word list (next, mem, pushes, sends) =
    let (lowest, rest, mask') = mask_step d.free_peers p peers mask list in
    let d1 = dispatched k tsc p 0 next mem d in
    after_one k tsc rounds t req stamp p q ts peers next mem ctx m d ring small
      (some_peer d.free_peers p peers list) lowest pushes
      (drain_queue-IsDrained k tsc rounds (t + 1) q ts peers ctx m d1 (omega arith)
        (subst (IsRing (t + 1) q ts) (sym (update_self d.rtypes k _))
          (taken_off t req stamp q ts (d.rtypes k) ring))
        (omega arith) mask' (omega arith) rest sends)
