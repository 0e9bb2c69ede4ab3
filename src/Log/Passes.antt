-- ===== src/Log/Passes.antt =====
-- `check_hist` passes on a histogram of the requests.
use psp.Base.{
  ℕ, zero, suc, ◌+◌, ◌*◌, ◌/◌, ◌%◌, ◌≤◌, ◌<◌, ◌≡◌, refl, ap, Bool, true, not, ◌&&◌, inl, inr, List,
  [], ◌∷◌, ◌++◌, length, All, arith, ltb, ◌==◌, not_ltb→le, le→not_ltb, ==_refl, Bool-cases,
  if◌then◌else◌, u32_mod, u64_mod, ok,
}
use native.Mathlib.Nat.{mod-eq_of_lt, add-zero, zero-add}
use psp.Base.Maps.{Entries, get, touch, below, IsMap, below_zero}
use psp.ClientTypes.{ClientRequest}
use psp.Histogram.{Histogram}
use psp.Sampling.Count.{at-inside}
use psp.Log.{quantiles, latency, reached, check_loop, check_hist}
use psp.Log.Buckets.{
  Within, positive, positive-none, positive-same, add_suc, get-touch, touch-IsMap, touch-Within,
  below-touch,
}
use psp.Log.Check.{row_sum, row_sum-suc, row_sum-all, Filled}

module _ (in_ns : ℕ → ℕ) (at_least : (total : ℕ) (share : ℕ × ℕ) (c : ℕ) → Bool) (total nr : ℕ)
    (reqs : List ClientRequest) (inside : nr < length reqs) where
  -- a share of a place is no later place
  abbrev IsShare : ℕ × ℕ → Type 0
  IsShare share = nr * share.0 % u64_mod / share.1 ≤ nr

  quantiles-IsShare : All IsShare quantiles
  quantiles-IsShare = omega arith

  reached-ok :
      (shares : List (ℕ × ℕ)) (i c b : ℕ)
      → All IsShare shares
      → (found : List (ℕ × ℕ)) × (reached in_ns at_least shares total nr i c b reqs ≡ ok found)
  unfolding reached
  reached-ok [] i c b h = ([], refl)
  reached-ok ((num, den) ∷ shares) i c b h =
      let (rest, runs) = reached-ok shares i c b h.1 in
      let (req, found) = at-inside reqs (nr * num % u64_mod / den) (omega (arith, h.0)) in
      elim (Bool-cases (at_least total (num, den) (c + b) && not (at_least total (num, den) c))) [
        | inl here ↦ ((i, latency in_ns req) ∷ rest, rw (runs, here, found) refl)
        | inr passed ↦ (rest, rw (runs, passed) refl)
      ]

  found-ok :
      (i c b : ℕ)
      → (found : List (ℕ × ℕ)) × ((if b == 0
            then ok []
            else reached in_ns at_least quantiles total nr i c b reqs)
          ≡ ok found)
  found-ok i c b = elim (Bool-cases (b == 0)) [
    | inl empty ↦ ([], rw empty refl)
    | inr some_values ↦
        let (found, runs) = reached-ok quantiles i c b quantiles-IsShare in
        (found, rw (some_values, runs) refl)
  ]

  -- what the loop of the check returns for the buckets from `i` on, after `c` values
  abbrev Counted : (rounds i k c : ℕ) → Entries → Type 0
  Counted rounds i k c m =
      (found : List (ℕ × ℕ)) × (m' : Entries) × (check_loop in_ns at_least rounds i c total nr reqs
          m
        ≡ ok (found, (c + row_sum (positive i k m)) % u32_mod, m'))

  Counted-step :
      (rounds i k c : ℕ) (m : Entries)
      → i + 1 < u32_mod
      → ltb i (length m) ≡ true
      → Counted rounds (i + 1) k ((c + get i m) % u32_mod) (touch i m)
      → Counted (suc rounds) i (suc k) c m
  unfolding check_loop
  Counted-step rounds i k c m small more (rest, m', runs) =
      let (found, finds) = found-ok i c (get i m) in
      (
        found ++ rest,
        m',
        rw (more, finds, mod-eq_of_lt {n = i + 1} {m = u32_mod} small, runs)
            (ap (λ n. ok (found ++ rest, n, m'))
              (omega (
                arith,
                row_sum-suc i k m,
                ap row_sum (positive-same (i + 1) k m (touch i m) (λ j. get-touch i j m)),
              ))),
      )

  check_loop-Counted :
      (rounds i k c : ℕ) (m : Entries)
      → IsMap m
      → Within (i + k) m
      → below i m ≡ i
      → i + k < u32_mod
      → k < rounds
      → c < u32_mod
      → Counted rounds i k c m
  unfolding check_loop
  check_loop-Counted zero i k c m h within all small fuel word = absurd (omega arith)
  check_loop-Counted (suc rounds) i zero c m h within all small fuel word = (
    [],
    m,
    rw (le→not_ltb i (length m) (omega (arith, within, ap (λ n. below n m) (add-zero i))))
        (ap (λ n. ok ([], n, m)) (omega arith)),
  )
  check_loop-Counted (suc rounds) i (suc k) c m h within all small fuel word =
      elim (Bool-cases (ltb i (length m))) [
        | inl more ↦ Counted-step rounds i k c m (omega arith) more (
            check_loop-Counted rounds (i + 1) k ((c + get i m) % u32_mod) (touch i m)
              (touch-IsMap i m h)
              (touch-Within i (i + 1 + k) m (omega arith)
                (omega (arith, within, ap (λ n. below n m) (add_suc i k))))
              (below-touch i m h all) (omega arith) (omega arith) (omega arith))
        | inr done ↦ (
          [],
          m,
          rw (done, positive-none i (suc k) m (omega (arith, not_ltb→le i (length m) done, all)))
              (ap (λ n. ok ([], n, m)) (omega arith)),
        )
      ]

-- `check_hist` of a histogram of `k` values and requests of which the last that it reads is there
pub check_hist-ok :
    (in_ns : ℕ → ℕ) (at_least : (total : ℕ) (share : ℕ × ℕ) (c : ℕ) → Bool) (rounds n k nr : ℕ)
    (reqs : List ClientRequest) (hist : Histogram)
    → nr < length reqs
    → n < u32_mod
    → n < rounds
    → k < u32_mod
    → Filled n k hist
    → (found : List (ℕ × ℕ)) × (hist' : Histogram) × (check_hist in_ns at_least rounds reqs nr hist
        ≡ ok (found, hist'))
unfolding check_hist
check_hist-ok in_ns at_least rounds n k nr reqs hist inside small fuel few f =
    let (first, reads_first) = at-inside reqs 0 (omega arith) in
    let (last, reads_last) = at-inside reqs nr inside in
    let (found, m', runs) =
      check_loop-Counted in_ns at_least hist.count nr reqs inside rounds 0 n 0 hist.buckets
        f.distinct (omega (arith, f.within, ap (λ k. below k hist.buckets) (zero-add n)))
        (below_zero hist.buckets) (omega arith) fuel (omega arith) in
    let same : (0 + row_sum (positive 0 n hist.buckets)) % u32_mod ≡ hist.count =
      omega (arith, f.sum, f.count, row_sum-all n hist.buckets f.distinct f.within) in
    (
      found,
      record hist { buckets = m' },
      rw (reads_first, runs, same, ==_refl hist.count, reads_last) refl,
    )
