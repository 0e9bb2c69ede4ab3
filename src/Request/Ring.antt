-- ===== src/Request/Ring.antt =====
-- The ring of requests of a type against a FIFO of 4096 requests.
use psp.Base.{
  ℕ, ◌+◌, ◌%◌, ◌^◌, ◌≤◌, ◌≡◌, refl, true, false, List, [], ◌∷◌, ◌++◌, length, length-append, arith,
  ltb, ltb→lt, Bool-cases, inl, inr, ◌==◌, if◌then◌else◌, bit_and, sub32,
}
use psp.Base.Bits.{bit_and-mask}
use psp.Base.Window.{Window, Window-push}
use psp.Request.{RequestType, exfull, push_to_rqueue}

-- the requests `q` wait, received at the times `ts`, and `t` were taken before
pub record IsRing (t : ℕ) (q ts : List ℕ) (rtype : RequestType) : Type 0 where
  pub requests : Window 4096 rtype.rqueue t q
  pub stamps : Window 4096 rtype.tsqueue t ts
  pub same_length : length ts ≡ length q
  pub tail : rtype.rqueue_tail ≡ t % 2 ^ 32
  pub head : rtype.rqueue_head ≡ (t + length q) % 2 ^ 32
  pub fits : length q ≤ 4096

-- the queue after a push, and its status
abbrev pub pushed : List ℕ → List ℕ → ℕ → List ℕ
pushed q xs x = if ltb (length q) 4096 then xs ++ (x ∷ []) else xs

abbrev pub push_status : List ℕ → ℕ
push_status q = if ltb (length q) 4096 then 0 else exfull

-- `push_to_rqueue` puts a request and its time behind those that wait while they are fewer than
-- 4096, and otherwise returns `EXFULL` and changes nothing.
pub push_to_rqueue-IsRing :
    {t : ℕ} {q ts : List ℕ} {rtype : RequestType} (req tsc : ℕ)
    → IsRing t q ts rtype
    → ((push_to_rqueue req tsc rtype).0 ≡ push_status q)
      × IsRing t (pushed q q req) (pushed q ts tsc) (push_to_rqueue req tsc rtype).1
unfolding push_to_rqueue
push_to_rqueue-IsRing {t} {q} {ts} {rtype} req tsc r = elim (Bool-cases (ltb (length q) 4096)) [
  | inl room ↦
      let few = ltb→lt (length q) 4096 room in
      let free : (sub32 rtype.rqueue_head rtype.rqueue_tail == 4096) ≡ false =
        ground (arith, r.head, r.tail, few) in
      let at : bit_and rtype.rqueue_head 4095 ≡ (t + length q) % 4096 =
        omega (arith, bit_and-mask 12 rtype.rqueue_head, r.head) in
      let at' : bit_and rtype.rqueue_head 4095 ≡ (t + length ts) % 4096 =
        omega (arith, at, r.same_length) in
      rw (room, free)
        (
          refl,
          record {
            requests = rw at (Window-push 4096 rtype.rqueue req t q few r.requests);
            stamps = rw at' (
                Window-push 4096 rtype.tsqueue tsc t ts (omega (arith, r.same_length, few))
                  r.stamps);
            same_length =
                omega
                  (arith, r.same_length, length-append q (req ∷ []), length-append ts (tsc ∷ []));
            tail = r.tail;
            head = omega (arith, r.head, length-append q (req ∷ []));
            fits = omega (arith, few, length-append q (req ∷ []));
          },
        )
  | inr full ↦
      let all : (sub32 rtype.rqueue_head rtype.rqueue_tail == 4096) ≡ true =
        ground (arith, r.head, r.tail, r.fits, full) in
      rw (full, all) (refl, r)
]
