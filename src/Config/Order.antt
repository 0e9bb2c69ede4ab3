-- ===== src/Config/Order.antt =====
-- The dispatcher's tables after the registration of the types in persephone.cc.
use psp.Base.{
  ℕ, suc, ◌+◌, ◌≤◌, ◌<◌, ◌≡◌, ◌≢◌, refl, ◌∙◌, true, some, length, List, [], ◌∷◌, arith, ltb, ltb→lt,
  ◌==◌, ==→eq, Bool-cases, inl, inr, update, update_self, update_ne, ok,
}
use psp.Client.{type_number}
use psp.ReqType.{str_to_type}
use psp.Config.{NewType, OrderedMap, insert, register, Tables, set_entry, fill, TypeNode, last_type}

-- the keys ascend, and all lie above a bound
abbrev pub Ascends : ℕ → OrderedMap → Type 0
Ascends low [] = Unit
Ascends low ((k, v) ∷ m) = (low ≤ k) × Ascends (suc k) m

insert-Ascends :
    (low k : ℕ) (v : NewType) (m : OrderedMap)
    → low ≤ k
    → Ascends low m
    → Ascends low (insert k v m)
unfolding insert
insert-Ascends low k v [] le a = (le, tt)
insert-Ascends low k v ((k', v') ∷ m) le a = elim (Bool-cases (ltb k k')) [
  | inl lt ↦ rw lt (le, (ltb→lt k k' lt, a.1))
  | inr ge ↦ elim (Bool-cases (k == k')) [
    | inl same ↦ rw (ge, same) (le, rw (==→eq k k' same) a.1)
    | inr other ↦ rw (ge, other) (a.0, insert-Ascends (suc k') k v m (ground arith) a.1)
  ]
]

-- each key is the service time of its value
abbrev pub Keyed : OrderedMap → Type 0
Keyed [] = Unit
Keyed ((k, v) ∷ m) = (v.mean_ns ≡ k) × Keyed m

insert-Keyed :
    (k : ℕ) (v : NewType) (m : OrderedMap) → v.mean_ns ≡ k → Keyed m → Keyed (insert k v m)
unfolding insert
insert-Keyed k v [] e h = (e, tt)
insert-Keyed k v ((k', v') ∷ m) e h = elim (Bool-cases (ltb k k')) [
  | inl lt ↦ rw lt (e, h)
  | inr ge ↦ elim (Bool-cases (k == k')) [
    | inl same ↦ rw (ge, same) (e, h.1)
    | inr other ↦ rw (ge, other) (h.0, insert-Keyed k v m e h.1)
  ]
]

length-insert : (k : ℕ) (v : NewType) (m : OrderedMap) → length (insert k v m) ≤ suc (length m)
unfolding insert
length-insert k v [] = omega arith
length-insert k v ((k', v') ∷ m) = elim (Bool-cases (ltb k k')) [
  | inl lt ↦ rw lt (omega arith)
  | inr ge ↦ elim (Bool-cases (k == k')) [
    | inl same ↦ rw (ge, same) (omega arith)
    | inr other ↦ rw (ge, other) (omega (arith, length-insert k v m))
  ]
]

-- every type has its service time in the file
abbrev pub Timed : List TypeNode → Type 0
Timed [] = Unit
Timed (node ∷ nodes) = ((t : ℕ × ℕ) × (node.timing ≡ some t)) × Timed nodes

-- the map that is registered
pub record IsMap (bound : ℕ) (m : OrderedMap) : Type 0 where
  pub ascends : Ascends 0 m
  pub keyed : Keyed m
  pub short : length m ≤ bound

pub register-IsMap :
    (i bound : ℕ) (nodes : List TypeNode) (m : OrderedMap)
    → Timed nodes
    → IsMap bound m
    → IsMap (bound + length nodes) (register i nodes m)
unfolding register
register-IsMap i bound [] m timed is = record {
  ascends = is.ascends;
  keyed = is.keyed;
  short = omega (arith, is.short);
}
register-IsMap i bound (node ∷ nodes) m timed is =
    let (t, given) = timed.0 in
    let v : NewType = record { type = str_to_type node.type_name; mean_ns = t.0; deadline = t.1 } in
    let more : bound + suc (length nodes) ≡ suc bound + length nodes = omega arith in
    rw (given, more)
      (register-IsMap (i + 1) (suc bound) nodes (insert t.0 v m) timed.1 (record {
        ascends = insert-Ascends 0 t.0 v m (omega arith) is.ascends;
        keyed = insert-Keyed t.0 v m refl is.keyed;
        short = omega (arith, length-insert t.0 v m, is.short);
      }))

-- the first `n` places of the two tables point at each other
abbrev pub Known : ℕ → Tables → Type 0
Known n t =
    (j : ℕ)
    → j < n
    → (t.type_to_nsorder (type_number (t.rtypes j).type) < n)
      × (type_number (t.rtypes (t.type_to_nsorder (type_number (t.rtypes j).type))).type
          ≡ type_number (t.rtypes j).type)

abbrev pub entered : ℕ → NewType → Tables → Tables
entered i r t = record t {
  rtypes = update t.rtypes i r;
  type_to_nsorder = update t.type_to_nsorder (type_number r.type) i;
}

pub entered-Known : (i : ℕ) (r : NewType) (t : Tables) → Known i t → Known (suc i) (entered i r t)
entered-Known i r t known j lt = elim (Bool-cases (j == i)) [
  | inl here ↦
      rw
        (
          ==→eq j i here,
          update_self t.rtypes i r,
          update_self t.type_to_nsorder (type_number r.type) i,
          update_self t.rtypes i r,
        )
        (omega arith, refl)
  | inr there ↦
      let apart : j ≢ i = λ e. ground (arith, e) in
      let a = type_number (t.rtypes j).type in
      rw (update_ne t.rtypes i r j apart) (elim (Bool-cases (a == type_number r.type)) [
        | inl hit ↦
            rw
              (
                ==→eq a (type_number r.type) hit,
                update_self t.type_to_nsorder (type_number r.type) i,
                update_self t.rtypes i r,
              )
              (omega arith, refl)
        | inr miss ↦
            let new : a ≢ type_number r.type = λ e. ground (arith, e) in
            let old = known j (ground arith) in
            rw
              (
                update_ne t.type_to_nsorder (type_number r.type) i a new,
                update_ne t.rtypes i r (t.type_to_nsorder a) (λ e. omega (arith, e, old.0)),
              )
              (omega (arith, old.0), old.1)
      ])
]

-- the values of the map stand from place `i` on
abbrev pub Holds : ℕ → OrderedMap → Tables → Type 0
Holds i [] t = Unit
Holds i ((k, v) ∷ m) t = (t.rtypes i ≡ v) × Holds (i + 1) m t

-- what the loop over the map does to the tables
pub record Filled (i : ℕ) (m : OrderedMap) (t t' : Tables) : Type 0 where
  pub holds : Holds i m t'
  pub kept : (j : ℕ) → j < i → t'.rtypes j ≡ t.rtypes j
  pub known : Known (i + length m) t'

pub fill-Filled :
    (i : ℕ) (m : OrderedMap) (t : Tables)
    → i + length m ≤ last_type
    → Known i t
    → (t' : Tables) × (fill i m t ≡ ok (i + length m, t')) × Filled i m t t'
unfolding fill set_entry
fill-Filled i [] t le known =
    let same : i + 0 ≡ i = omega arith in
    rw same (t, refl, record { holds = tt; kept = λ j lt. refl; known = rw same known })
fill-Filled i ((k, r) ∷ m) t le known =
    let room : ltb i 12 ≡ true = ground arith in
    let start : Known (i + 1) (entered i r t) =
      let next : i + 1 ≡ suc i = omega arith in rw next (entered-Known i r t known) in
    let (t', run, filled) = fill-Filled (i + 1) m (entered i r t) (omega arith) start in
    let same : i + suc (length m) ≡ i + 1 + length m = omega arith in
    rw (room, same)
      (
        t',
        run,
        record {
          holds = (filled.kept i (omega arith) ∙ update_self t.rtypes i r, filled.holds);
          kept = λ j lt.
              filled.kept j (omega arith) ∙ update_ne t.rtypes i r j (λ e. omega (arith, e));
          known = rw same filled.known;
        },
      )
