-- ===== src/Config/Registered.antt =====
-- What the registration of the types in persephone.cc leaves in the dispatcher's tables.
use psp.Base.{
  ℕ, suc, ◌+◌, ◌≤◌, ◌<◌, ◌≡◌, refl, sym, ◌∙◌, true, false, none, some, List, [], ◌∷◌, length, arith,
  ltb, ◌==◌, Bool-cases, inl, inr, ==→eq, update_self, update_ne, ok, fault,
}
use psp.ReqType.{unknown}
use psp.Config.{TypeNode, NewType, OrderedMap, register, Tables, set_entry, register_types}
use psp.Config.Policy.{DispatchMode, is_cfcfs}
use psp.Config.Latest.{
  latest, find-register, found-Holds, Holds-find, Distinct, length-register, empty-Fresh,
}
use psp.Config.Order.{
  Ascends, Keyed, Timed, register-IsMap, Known, entered, entered-Known, Holds, fill-Filled,
}

-- the service times in the table lie above a bound, and ascend
above :
    (i low : ℕ) (m : OrderedMap) (t : Tables) (j : ℕ)
    → Holds i m t
    → Ascends low m
    → Keyed m
    → i ≤ j
    → j < i + length m
    → low ≤ (t.rtypes j).mean_ns
above i low [] t j holds a keyed le lt = absurd (omega arith)
above i low ((k, v) ∷ m) t j holds a keyed le lt = elim (Bool-cases (j == i)) [
  | inl here ↦ rw (==→eq j i here, holds.0) (omega (arith, keyed.0, a.0))
  | inr there ↦
      let later : i + 1 ≤ j = ground arith in
      omega (arith, above (i + 1) (suc k) m t j holds.1 a.1 keyed.1 later (omega arith), a.0)
]

ascending :
    (i low : ℕ) (m : OrderedMap) (t : Tables) (j j' : ℕ)
    → Holds i m t
    → Ascends low m
    → Keyed m
    → i ≤ j
    → j < j'
    → j' < i + length m
    → (t.rtypes j).mean_ns < (t.rtypes j').mean_ns
ascending i low [] t j j' holds a keyed le lt lt' = absurd (omega arith)
ascending i low ((k, v) ∷ m) t j j' holds a keyed le lt lt' = elim (Bool-cases (j == i)) [
  | inl here ↦
      rw (==→eq j i here, holds.0)
        (omega (
          arith,
          keyed.0,
          above (i + 1) (suc k) m t j' holds.1 a.1 keyed.1 (ground arith) (omega arith),
        ))
  | inr there ↦
      ascending (i + 1) (suc k) m t j j' holds.1 a.1 keyed.1 (ground arith) lt (omega arith)
]

-- the tables with the `n` types that the file leaves, in the order of their service times, and the
-- type for unknown requests behind them
pub record Registered (nodes : List TypeNode) (n : ℕ) (t : Tables) : Type 0 where
  pub declared : (j : ℕ) → j < n → latest (t.rtypes j).mean_ns nodes none ≡ some (t.rtypes j)
  pub complete :
      (k : ℕ) (v : NewType) → latest k nodes none ≡ some v → (j : ℕ) × (j < n) × (t.rtypes j ≡ v)
  pub count : t.n_rtypes ≡ n
  pub ordered : (j j' : ℕ) → j < j' → j' < n → (t.rtypes j).mean_ns < (t.rtypes j').mean_ns
  pub last : ((t.rtypes n).type ≡ unknown) × (t.type_to_nsorder 0 ≡ n)
  pub known : Known (suc n) t

module _ (dp : DispatchMode) (nodes : List TypeNode) (t : Tables) where
  -- If the mode is not `CFCFS` and the file declares at most 11 types, each with its service time, the
  -- constructor registers, for each service time in the file, the last type with it, and no others:
  -- of types with the same service time only that one is left. They stand in ascending order of their
  -- service times, the type for unknown requests stands behind them, and for each of these types the
  -- table of places leads back to an entry of the type.
  pub register_types-Registered :
      is_cfcfs dp ≡ false
      → Timed nodes
      → length nodes < 12
      → (n : ℕ) × (t' : Tables) × (n ≤ length nodes)
        × (register_types dp (some nodes) t ≡ ok t')
        × Registered nodes n t'
  unfolding register_types set_entry
  register_types-Registered aware timed few =
      let m = register 0 nodes [] in
      let is =
        register-IsMap 0 0 nodes [] timed
          (record { ascends = tt; keyed = tt; short = omega arith }) in
      let n = 0 + length m in
      let short : n ≤ length nodes = omega (arith, is.short) in
      let (t1, run, filled) = fill-Filled 0 m t (omega arith) (λ j lt. absurd (omega arith)) in
      let none_over : ltb 12 (length nodes) ≡ false = ground arith in
      let room : ltb n 12 ≡ true = ground arith in
      let r : NewType = record { type = unknown; mean_ns = 0; deadline = 0 } in
      let t2 : Tables = record t1 { n_rtypes = n } in
      (
        n,
        entered n r t2,
        short,
        rw (none_over, aware, run, room) refl,
        record {
          declared = λ j lt. rw (update_ne t1.rtypes n r j (λ e. omega (arith, e, lt))) (
              sym (find-register 0 (t1.rtypes j).mean_ns nodes [] timed)
              ∙ (Holds-find 0 0 m t1 j filled.holds is.ascends is.keyed (omega arith) lt).1);
          complete = λ k v found.
              let (j, lo, hi, at) =
                found-Holds 0 k m t1 v filled.holds (find-register 0 k nodes [] timed ∙ found) in
              (j, hi, update_ne t1.rtypes n r j (λ e. omega (arith, e, hi)) ∙ at);
          count = refl;
          ordered = λ j j' lt lt'.
              rw
                (
                  update_ne t1.rtypes n r j (λ e. omega (arith, e)),
                  update_ne t1.rtypes n r j' (λ e. omega (arith, e)),
                )
                (ascending 0 0 m t1 j j' filled.holds is.ascends is.keyed (omega arith) lt lt');
          last = (rw (update_self t1.rtypes n r) refl, update_self t1.type_to_nsorder 0 n);
          known = entered-Known n r t2 filled.known;
        },
      )

  -- If the mode is not `CFCFS` and the file declares 12 types, each with its service time and all of
  -- these different, the type for unknown requests is written behind the end of the table, although
  -- the constructor has found the number of the types to be allowed.
  pub register_types-overflow :
      is_cfcfs dp ≡ false
      → Timed nodes
      → Distinct nodes
      → length nodes ≡ 12
      → register_types dp (some nodes) t ≡ fault
  unfolding register_types set_entry
  register_types-overflow aware timed distinct twelve =
      let different : length (register 0 nodes []) ≡ 12 =
        omega (arith, length-register 0 nodes [] timed distinct (empty-Fresh nodes), twelve) in
      let (t1, run, filled) =
        fill-Filled 0 (register 0 nodes []) t (omega arith) (λ j lt. absurd (omega arith)) in
      let none_over : ltb 12 (length nodes) ≡ false = ground arith in
      rw (none_over, aware, run, different) refl
