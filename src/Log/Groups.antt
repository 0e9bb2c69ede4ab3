-- ===== src/Log/Groups.antt =====
-- The requests of each type.
use psp.Base.{
  ℕ, ◌+◌, ◌≤◌, ◌≡◌, refl, sym, ◌∙◌, append-nil, append_assoc, Bool, not, ◌&&◌, List, [], ◌∷◌, ◌++◌,
  length, length-append, All, All-append, arith, ◌==◌, if◌then◌else◌, true, false, inl, inr,
  Bool-cases,
}
use psp.ReqType.{ReqType}
use psp.ClientTypes.{ClientRequest}
use psp.Client.{type_number}
use psp.Log.{ByType, add_to_type, by_type}

-- what a request that was grouped keeps, and how long a group is at most
abbrev pub Grouped : (ClientRequest → Type 0) → ℕ → ReqType × List ClientRequest → Type 0
Grouped P n group = (length group.1 ≤ n) × All P group.1

module _ (P : ClientRequest → Type 0) where
  Grouped-weaken :
      (n n' : ℕ) (groups : ByType) → n ≤ n' → All (Grouped P n) groups → All (Grouped P n') groups
  Grouped-weaken n n' [] le h = tt
  Grouped-weaken n n' (g ∷ groups) le h =
      ((omega (arith, h.0.0), h.0.1), Grouped-weaken n n' groups le h.1)

  add_to_type-Grouped :
      (n : ℕ) (req : ClientRequest) (groups : ByType)
      → P req
      → All (Grouped P n) groups
      → All (Grouped P (n + 1)) (add_to_type req groups)
  unfolding add_to_type
  add_to_type-Grouped n req [] p h = ((omega arith, (p, tt)), tt)
  add_to_type-Grouped n req ((t, reqs) ∷ groups) p h =
      elim (Bool-cases (type_number t == type_number req.type)) [
        | inl same ↦ rw same (
          (
            omega (arith, length-append reqs (req ∷ []), h.0.0),
            All-append P reqs (req ∷ []) h.0.1 (p, tt),
          ),
          Grouped-weaken n (n + 1) groups (omega arith) h.1,
        )
        | inr other ↦
            rw other ((omega (arith, h.0.0), h.0.1), add_to_type-Grouped n req groups p h.1)
      ]

  -- what is asked of a request that is grouped
  abbrev pub Counts : Bool → ClientRequest → Type 0
  Counts all req = (req.completed == 0 && not all) ≡ false → P req

  by_type-Grouped :
      (all : Bool) (n total : ℕ) (reqs : List ClientRequest) (groups : ByType)
      → n + length reqs ≤ total
      → All (Counts all) reqs
      → All (Grouped P n) groups
      → All (Grouped P total) (by_type all reqs groups)
  unfolding by_type
  by_type-Grouped all n total [] groups le p h = Grouped-weaken n total groups (omega arith) h
  by_type-Grouped all n total (req ∷ reqs) groups le p h =
      elim (Bool-cases (req.completed == 0 && not all)) [
        | inl left_out ↦ rw left_out (by_type-Grouped all n total reqs groups (omega arith) p.1 h)
        | inr counted ↦ rw counted (
            by_type-Grouped all (n + 1) total reqs (add_to_type req groups) (omega arith) p.1
              (add_to_type-Grouped n req groups (p.0 counted) h))
      ]

  -- the groups hold requests of the list, and none is longer than it
  pub groups-Grouped :
      (all : Bool) (reqs : List ClientRequest)
      → All (Counts all) reqs
      → All (Grouped P (length reqs)) (by_type all reqs [])
  groups-Grouped all reqs p = by_type-Grouped all 0 (length reqs) reqs [] (omega arith) p tt

-- the requests of the group of a type
abbrev pub group_of : ℕ → ByType → List ClientRequest
group_of k [] = []
group_of k ((t, reqs) ∷ groups) = if type_number t == k then reqs else group_of k groups

-- the requests of a type that are counted, in their order
abbrev pub of_type : Bool → ℕ → List ClientRequest → List ClientRequest
of_type all k [] = []
of_type all k (req ∷ reqs) =
    if req.completed == 0 && not all
    then of_type all k reqs
    else if type_number req.type == k
    then req ∷ of_type all k reqs
    else of_type all k reqs

-- with `a` and `b` the keys of a group and of a new request, and `k` the key that is looked for
same_key {ℓ} :
    {A : Type ℓ} (a b k : ℕ) (xs ys zs : List A)
    → (a == b) ≡ true
    → (if a == k then xs ++ zs else ys)
      ≡ (if b == k then (if a == k then xs else ys) ++ zs else if a == k then xs else ys)
same_key a b k xs ys zs h = ground arith

other_key {ℓ} :
    {A : Type ℓ} (a b k : ℕ) (xs ys ys' zs : List A)
    → (a == b) ≡ false
    → ys' ≡ (if b == k then ys ++ zs else ys)
    → (if a == k then xs else ys')
      ≡ (if b == k then (if a == k then xs else ys) ++ zs else if a == k then xs else ys)
other_key a b k xs ys ys' zs h e = ground arith

group_of-add :
    (k : ℕ) (req : ClientRequest) (groups : ByType)
    → group_of k (add_to_type req groups)
      ≡ (if type_number req.type == k then group_of k groups ++ (req ∷ []) else group_of k groups)
unfolding add_to_type
group_of-add k req [] = refl
group_of-add k req ((t, reqs) ∷ groups) =
    elim (Bool-cases (type_number t == type_number req.type)) [
      | inl same ↦ rw same (
          same_key (type_number t) (type_number req.type) k reqs (group_of k groups) (req ∷ [])
            same)
      | inr other ↦ rw other (
          other_key (type_number t) (type_number req.type) k reqs (group_of k groups)
            (group_of k (add_to_type req groups)) (req ∷ []) other (group_of-add k req groups))
    ]

group_of-by_type :
    (all : Bool) (k : ℕ) (reqs : List ClientRequest) (groups : ByType)
    → group_of k (by_type all reqs groups) ≡ group_of k groups ++ of_type all k reqs
unfolding by_type
group_of-by_type all k [] groups = sym (append-nil (group_of k groups))
group_of-by_type all k (req ∷ reqs) groups = elim (Bool-cases (req.completed == 0 && not all)) [
  | inl left_out ↦ rw left_out (group_of-by_type all k reqs groups)
  | inr counted ↦ rw counted (group_of-by_type all k reqs (add_to_type req groups) ∙ joined counted)
]
  where
    joined :
        (req.completed == 0 && not all) ≡ false
        → group_of k (add_to_type req groups) ++ of_type all k reqs
          ≡ group_of k groups
            ++ (if type_number req.type == k then req ∷ of_type all k reqs else of_type all k reqs)
    joined counted = elim (Bool-cases (type_number req.type == k)) [
      | inl same ↦
          rw (group_of-add k req groups, same)
            (append_assoc (group_of k groups) (req ∷ []) (of_type all k reqs))
      | inr other ↦ rw (group_of-add k req groups, other) refl
    ]

-- The groups that `log_latency` makes hold, for each type, the requests of this type in the order of
-- the list: all of them for the samples, and those that were answered for the histograms.
pub by_type-groups :
    (all : Bool) (k : ℕ) (reqs : List ClientRequest)
    → group_of k (by_type all reqs []) ≡ of_type all k reqs
by_type-groups all k reqs = group_of-by_type all k reqs []
