-- ===== src/Throughput/Epochs.antt =====
-- The counts that `log_throughput` prints.
use psp.Base.{
  ℕ, ◌+◌, ◌≤◌, ◌<◌, ◌≡◌, refl, sym, ◌∙◌, Bool, true, false, ◌&&◌, inl, inr, List, [], ◌∷◌, length,
  arith, ◌==◌, Bool-cases, ==_refl, if◌then◌else◌, add64, u64_mod,
}
use mathlib.Core.Path.{subst}
use psp.ReqType.{ReqType}
use psp.ClientTypes.{ClientRequest}
use psp.Client.{type_number}
use psp.Throughput.{Epoch, has_epoch, increment, count_epochs}

-- the count of a type, given by its number, in an epoch
abbrev pub count_of : (t k : ℕ) → List Epoch → ℕ
count_of t k [] = 0
count_of t k (e ∷ counts) =
    if type_number e.type == t && e.number == k then e.count else count_of t k counts

abbrev pub total : List Epoch → ℕ
total [] = 0
total (e ∷ counts) = e.count + total counts

module _ (epoch_of : ℕ → ℕ) where
  -- the requests of a type that were answered in an epoch
  abbrev pub answered_in : (t k : ℕ) → List ClientRequest → ℕ
  answered_in t k [] = 0
  answered_in t k (req ∷ reqs) =
      (if req.completed == 0
        then 0
        else if type_number req.type == t && epoch_of req.completed == k
        then 1
        else 0)
      + answered_in t k reqs

-- the requests that were answered
abbrev pub answered : List ClientRequest → ℕ
answered [] = 0
answered (req ∷ reqs) = (if req.completed == 0 then 0 else 1) + answered reqs

-- with the keys of an entry, of the increment and of the reading
key_hit :
    (a n b j t k c g : ℕ)
    → (a == b && n == j) ≡ true
    → (if a == t && n == k then add64 c 1 else g) ≡ (
        if b == t && j == k
        then add64 (if a == t && n == k then c else g) 1
        else if a == t && n == k
        then c
        else g)
key_hit a n b j t k c g h = ground arith

key_miss :
    (a n b j t k c g g' : ℕ)
    → (a == b && n == j) ≡ false
    → g' ≡ (if b == t && j == k then add64 g 1 else g)
    → (if a == t && n == k then c else g') ≡ (
        if b == t && j == k
        then add64 (if a == t && n == k then c else g) 1
        else if a == t && n == k
        then c
        else g)
key_miss a n b j t k c g g' h e = ground arith

count_of-increment :
    (type : ReqType) (j t k : ℕ) (counts : List Epoch)
    → has_epoch type j counts ≡ true
    → count_of t k (increment type j counts) ≡ (
        if type_number type == t && j == k
        then add64 (count_of t k counts) 1
        else count_of t k counts)
unfolding has_epoch increment
count_of-increment type j t k [] has = cc
count_of-increment type j t k (e ∷ counts) has =
    elim (Bool-cases (type_number e.type == type_number type && e.number == j)) [
      | inl here ↦ rw here (
          key_hit (type_number e.type) e.number (type_number type) j t k e.count
            (count_of t k counts) here)
      | inr later ↦ rw later (
          key_miss (type_number e.type) e.number (type_number type) j t k e.count
            (count_of t k counts) (count_of t k (increment type j counts)) later
            (count_of-increment type j t k counts (rw later at has)))
    ]

total-increment :
    (type : ReqType) (j : ℕ) (counts : List Epoch)
    → has_epoch type j counts ≡ true
    → total counts + 1 < u64_mod
    → total (increment type j counts) ≡ total counts + 1
unfolding has_epoch increment
total-increment type j [] has few = cc
total-increment type j (e ∷ counts) has few =
    elim (Bool-cases (type_number e.type == type_number type && e.number == j)) [
      | inl here ↦ rw here (omega arith)
      | inr later ↦
          rw later (omega (arith, total-increment type j counts (rw later at has) (omega arith)))
    ]

key_other :
    (a n b j t k c g : ℕ)
    → (a == b && n == j) ≡ false
    → (b == t && j == k) ≡ true
    → (if a == t && n == k then c else g) ≡ g
key_other a n b j t k c g other same = ground arith

count_of-absent :
    (type : ReqType) (j t k : ℕ) (counts : List Epoch)
    → has_epoch type j counts ≡ false
    → (type_number type == t && j == k) ≡ true
    → count_of t k counts ≡ 0
unfolding has_epoch
count_of-absent type j t k [] absent same = refl
count_of-absent type j t k (e ∷ counts) absent same =
    elim (Bool-cases (type_number e.type == type_number type && e.number == j)) [
      | inl here ↦ absurd (cc (rw here at absent))
      | inr later ↦
          key_other (type_number e.type) e.number (type_number type) j t k e.count
            (count_of t k counts) later same
          ∙ count_of-absent type j t k counts (rw later at absent) same
    ]

-- an entry for a new epoch counts nothing
count_of-new :
    (type : ReqType) (j t k : ℕ) (counts : List Epoch)
    → has_epoch type j counts ≡ false
    → count_of t k (record { type = type; number = j; count = 0 } ∷ counts) ≡ count_of t k counts
count_of-new type j t k counts absent = elim (Bool-cases (type_number type == t && j == k)) [
  | inl same ↦ rw (same, count_of-absent type j t k counts absent same) refl
  | inr other ↦ rw other refl
]

has-new :
    (type : ReqType) (j : ℕ) (counts : List Epoch)
    → has_epoch type j (record { type = type; number = j; count = 0 } ∷ counts) ≡ true
unfolding has_epoch
has-new type j counts = rw (==_refl (type_number type), ==_refl j) refl

-- a table in which the requests of one more list were counted
abbrev found_in : (type : ReqType) (j : ℕ) → List Epoch → List Epoch
found_in type j counts =
    if has_epoch type j counts
    then counts
    else record { type = type; number = j; count = 0 } ∷ counts

found_in-keeps :
    (type : ReqType) (j : ℕ) (counts : List Epoch)
    → (has_epoch type j (found_in type j counts) ≡ true)
      × ((t k : ℕ) → count_of t k (found_in type j counts) ≡ count_of t k counts)
      × (total (found_in type j counts) ≡ total counts)
found_in-keeps type j counts = elim (Bool-cases (has_epoch type j counts)) [
  | inl there ↦ rw there (there, (λ t k. refl), refl)
  | inr absent ↦
      rw absent (has-new type j counts, (λ t k. count_of-new type j t k counts absent), omega arith)
]

count-le-total : (t k : ℕ) (counts : List Epoch) → count_of t k counts ≤ total counts
count-le-total t k [] = omega arith
count-le-total t k (e ∷ counts) = elim (Bool-cases (type_number e.type == t && e.number == k)) [
  | inl here ↦ rw here (omega arith)
  | inr later ↦ rw later (omega (arith, count-le-total t k counts))
]

module _ (epoch_of : ℕ → ℕ) where
  -- the table after the requests
  abbrev Counts : List ClientRequest → (before after : List Epoch) → Type 0
  Counts reqs before after =
      ((t k : ℕ) → count_of t k after ≡ count_of t k before + answered_in epoch_of t k reqs)
      × (total after ≡ total before + answered reqs)

  one_more :
      (req : ClientRequest) (reqs : List ClientRequest) (counts after : List Epoch)
      → (req.completed == 0) ≡ false
      → total counts + 1 < u64_mod
      → Counts reqs
          (increment req.type
            (epoch_of req.completed)
            (found_in req.type (epoch_of req.completed) counts))
          after
      → Counts (req ∷ reqs) counts after
  one_more req reqs counts after came few h =
      let number = epoch_of req.completed in
      let found = found_in req.type number counts in
      let (there, same, same_total) = found_in-keeps req.type number counts in
      (
        (λ t k. rw came (
            h.0 t k
            ∙ picked (type_number req.type == t && number == k) (count_of t k found)
                (count_of t k counts) (answered_in epoch_of t k reqs) _
                (count_of-increment req.type number t k found there) (same t k)
                (omega (arith, count-le-total t k counts)))),
        rw came (
            omega (
              arith,
              h.1,
              total-increment req.type number found there (omega (arith, same_total)),
              same_total,
            )),
      )
    where
      picked :
          (hit : Bool) (a b rest x : ℕ)
          → x ≡ (if hit then add64 a 1 else a)
          → a ≡ b
          → b + 1 < u64_mod
          → x + rest ≡ b + ((if hit then 1 else 0) + rest)
      picked true a b rest x e same small = omega arith
      picked false a b rest x e same small = omega arith

  count_epochs-Counts :
      (reqs : List ClientRequest) (counts : List Epoch)
      → total counts + length reqs < u64_mod
      → Counts reqs counts (count_epochs epoch_of reqs counts)
  unfolding count_epochs
  count_epochs-Counts [] counts few = ((λ t k. omega arith), omega arith)
  count_epochs-Counts (req ∷ reqs) counts few = elim (Bool-cases (req.completed == 0)) [
    | inl never ↦
        let h = count_epochs-Counts reqs counts (omega arith) in
        rw never ((λ t k. omega (arith, h.0 t k)), omega (arith, h.1))
    | inr came ↦
        let number = epoch_of req.completed in
        let (there, same, same_total) = found_in-keeps req.type number counts in
        let next = increment req.type number (found_in req.type number counts) in
        let step : count_epochs epoch_of (req ∷ reqs) counts ≡ count_epochs epoch_of reqs next =
          rw came refl in
        subst (λ after. Counts (req ∷ reqs) counts after) (sym step)
          (one_more req reqs counts (count_epochs epoch_of reqs next) came (omega arith) (
            count_epochs-Counts reqs next (
              omega (
                arith,
                same_total,
                total-increment req.type number (found_in req.type number counts) there
                    (omega (arith, same_total)),
              ))))
  ]

  -- Of fewer than 2^64 requests, the table of `log_throughput` counts for each type and each epoch the
  -- requests of this type that were answered in this epoch, and all its counts add up to the number
  -- of the requests that were answered.
  pub count_epochs_lem :
      (reqs : List ClientRequest)
      → length reqs < u64_mod
      → ((t k : ℕ) → count_of t k (count_epochs epoch_of reqs []) ≡ answered_in epoch_of t k reqs)
        × (total (count_epochs epoch_of reqs []) ≡ answered reqs)
  count_epochs_lem reqs few =
      let h = count_epochs-Counts reqs [] (omega arith) in
      ((λ t k. omega (arith, h.0 t k)), omega (arith, h.1))
