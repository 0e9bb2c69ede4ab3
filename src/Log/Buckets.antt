-- ===== src/Log/Buckets.antt =====
-- The loops over the buckets of a histogram, whose map grows while they run.
use psp.Base.{
  ℕ, zero, suc, ◌+◌, ◌≤◌, ◌<◌, ◌≡◌, refl, ◌∙◌, true, inl, inr, [], ◌∷◌, length, arith, ltb,
  not_ltb→le, le→not_ltb, ap, ◌==◌, Bool-cases, if◌then◌else◌, ok,
}
use native.Mathlib.Nat.{mod-eq_of_lt, add-zero, zero-add}
use psp.Base.Maps.{
  Entries, get, touch, below, IsMap, has-count, get-absent, below_zero, below_suc, count-above,
}
use psp.Log.{bucket_loop}

pub add_suc : (i k : ℕ) → i + 1 + k ≡ i + suc k
add_suc i k = omega arith

-- the entries that are not 0 of the next `k` keys from `i` on, in ascending order
abbrev pub positive : (i k : ℕ) → Entries → Entries
positive i zero m = []
positive i (suc k) m =
    if get i m == 0 then positive (i + 1) k m else (i, get i m) ∷ positive (i + 1) k m

-- all keys are smaller than `n`
abbrev pub Within : ℕ → Entries → Type 0
Within n m = length m ≤ below n m

pub get-touch : (i j : ℕ) (m : Entries) → get j (touch i m) ≡ get j m
get-touch i j m = ground (arith, has-count i m, get-absent i m)

pub touch-IsMap : (i : ℕ) (m : Entries) → IsMap m → IsMap (touch i m)
touch-IsMap i m h j = ground (arith, has-count i m, h j)

pub touch-Within : (i n : ℕ) (m : Entries) → i < n → Within n m → Within n (touch i m)
touch-Within i n m lt h = ground arith

pub below-touch :
    (i : ℕ) (m : Entries) → IsMap m → below i m ≡ i → below (i + 1) (touch i m) ≡ i + 1
below-touch i m h all = ground (arith, has-count i m, below_suc i m, h i)

pub positive-same :
    (i k : ℕ) (m m' : Entries) → ((j : ℕ) → get j m' ≡ get j m) → positive i k m' ≡ positive i k m
positive-same i zero m m' h = refl
positive-same i (suc k) m m' h = rw (h i, positive-same (i + 1) k m m' h) refl

pub positive-none : (i k : ℕ) (m : Entries) → length m ≤ below i m → positive i k m ≡ []
positive-none i zero m h = refl
positive-none i (suc k) m h =
    rw (get-absent i m (count-above i i m h (omega arith)))
      (positive-none (i + 1) k m (omega (arith, below_suc i m, h)))

-- what a loop over the buckets below `n` returns
pub record Listed (n : ℕ) (m m' : Entries) : Type 0 where
  pub distinct : IsMap m'
  pub within : Within n m'
  pub same : (j : ℕ) → get j m' ≡ get j m

-- one round of the loop before another loop
loop-step :
    (modulus rounds i k : ℕ) (m : Entries)
    → i + suc k < modulus
    → ltb i (length m) ≡ true
    → (m' : Entries) × (bucket_loop modulus rounds (i + 1) (touch i m)
        ≡ ok (positive (i + 1) k (touch i m), m'))
      × Listed (i + 1 + k) (touch i m) m'
    → (m' : Entries) × (bucket_loop modulus (suc rounds) i m ≡ ok (positive i (suc k) m, m'))
      × Listed (i + suc k) m m'
unfolding bucket_loop
loop-step modulus rounds i k m small more (m', runs, listed) = (
  m',
  rw
      (
        more,
        mod-eq_of_lt {n = i + 1} {m = modulus} (omega arith),
        runs,
        positive-same (i + 1) k m (touch i m) (λ j. get-touch i j m),
      )
      (ground arith),
  record {
    distinct = listed.distinct;
    within = omega (arith, listed.within, ap (λ n. below n m') (add_suc i k));
    same = λ j. listed.same j ∙ get-touch i j m;
  },
)

loop-Listed :
    (modulus rounds i k : ℕ) (m : Entries)
    → IsMap m
    → Within (i + k) m
    → below i m ≡ i
    → i + k < modulus
    → k < rounds
    → (m' : Entries) × (bucket_loop modulus rounds i m ≡ ok (positive i k m, m'))
      × Listed (i + k) m m'
unfolding bucket_loop
loop-Listed modulus zero i k m h within all small fuel = absurd (omega arith)
loop-Listed modulus (suc rounds) i zero m h within all small fuel = (
  m,
  rw (le→not_ltb i (length m) (omega (arith, within, ap (λ n. below n m) (add-zero i)))) refl,
  record { distinct = h; within = within; same = λ j. refl },
)
loop-Listed modulus (suc rounds) i (suc k) m h within all small fuel =
    elim (Bool-cases (ltb i (length m))) [
      | inl more ↦ loop-step modulus rounds i k m small more (
          loop-Listed modulus rounds (i + 1) k (touch i m) (touch-IsMap i m h)
            (touch-Within i (i + 1 + k) m (omega arith)
              (omega (arith, within, ap (λ n. below n m) (add_suc i k))))
            (below-touch i m h all) (omega arith) (omega arith))
      | inr done ↦ (
        m,
        rw (done, positive-none i (suc k) m (omega (arith, not_ltb→le i (length m) done, all)))
            refl,
        record { distinct = h; within = within; same = λ j. refl },
      )
    ]

-- The loop over the buckets of a histogram, whose every key is below `n`, ends in no more than
-- `n + 1` rounds although its reads add entries to the map that bounds it, when its counter does not
-- wrap: it goes over each bucket that counts something once, in ascending order, and leaves every
-- count as it was.
pub bucket_loop-Listed :
    (modulus rounds n : ℕ) (m : Entries)
    → IsMap m
    → Within n m
    → n < modulus
    → n < rounds
    → (m' : Entries) × (bucket_loop modulus rounds 0 m ≡ ok (positive 0 n m, m')) × Listed n m m'
bucket_loop-Listed modulus rounds n m h within small fuel =
    let (m', runs, listed) =
      loop-Listed modulus rounds 0 n m h (omega (arith, within, ap (λ k. below k m) (zero-add n)))
        (below_zero m) (omega arith) (omega arith) in
    (
      m',
      runs,
      record {
        distinct = listed.distinct;
        within = omega (arith, listed.within, ap (λ k. below k m') (zero-add n));
        same = listed.same;
      },
    )
