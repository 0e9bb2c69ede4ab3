-- ===== src/Config/Latest.antt =====
-- The ordered map of persephone.cc against the types that the file declares: the last type with a
-- service time is the one that is kept.
use psp.Base.{
  ℕ, suc, ◌+◌, ◌≤◌, ◌<◌, ◌≡◌, ◌≢◌, refl, ◌∙◌, ap, true, false, Option, none, some, List, [], ◌∷◌,
  length, arith, ◌==◌, ==→eq, ne→==, Bool-cases, inl, inr, if◌then◌else◌,
}
use psp.ReqType.{str_to_type}
use psp.Config.{TypeNode, NewType, OrderedMap, insert, register, Tables}
use psp.Config.Order.{Ascends, Keyed, Timed, Holds}

-- a type of the file, by its service time and deadline
abbrev pub type_of : TypeNode → ℕ × ℕ → NewType
type_of node t = record { type = str_to_type node.type_name; mean_ns = t.0; deadline = t.1 }

-- the last type of the file with this service time
abbrev pub latest : ℕ → List TypeNode → Option NewType → Option NewType
latest k [] found = found
latest k (node ∷ nodes) found = elim node.timing [
  | none ↦ latest k nodes found
  | some t ↦ latest k nodes (if k == t.0 then some (type_of node t) else found)
]

-- the value of a key
abbrev pub find : ℕ → OrderedMap → Option NewType
find k [] = none
find k ((k', v) ∷ m) = if k == k' then some v else find k m

find-insert :
    (k k' : ℕ) (v : NewType) (m : OrderedMap)
    → find k (insert k' v m) ≡ (if k == k' then some v else find k m)
unfolding insert
find-insert k k' v [] = refl
find-insert k k' v ((k2, v2) ∷ m) = ground (arith, find-insert k k' v m)

pub find-register :
    (i k : ℕ) (nodes : List TypeNode) (m : OrderedMap)
    → Timed nodes
    → find k (register i nodes m) ≡ latest k nodes (find k m)
unfolding register
find-register i k [] m timed = refl
find-register i k (node ∷ nodes) m timed =
    let (t, given) = timed.0 in
    rw given (
      find-register (i + 1) k nodes (insert t.0 (type_of node t) m) timed.1
      ∙ ap (latest k nodes) (find-insert k t.0 (type_of node t) m))

-- a key that is found stands in the table
pub found-Holds :
    (i k : ℕ) (m : OrderedMap) (t : Tables) (v : NewType)
    → Holds i m t
    → find k m ≡ some v
    → (j : ℕ) × (i ≤ j) × (j < i + length m) × (t.rtypes j ≡ v)
found-Holds i k [] t v holds e = ground arith
found-Holds i k ((k', v') ∷ m) t v holds e = elim (Bool-cases (k == k')) [
  | inl hit ↦ let same : v' ≡ v = cc (rw hit at e) in (i, omega arith, omega arith, holds.0 ∙ same)
  | inr miss ↦
      let (j, lo, hi, is) = found-Holds (i + 1) k m t v holds.1 (rw miss at e) in
      (j, omega (arith, lo), omega (arith, hi), is)
]

-- keys below the bound are not found
find-below : (low k : ℕ) (m : OrderedMap) → Ascends low m → k < low → find k m ≡ none
find-below low k [] a lt = refl
find-below low k ((k', v) ∷ m) a lt =
    let miss : (k == k') ≡ false = ne→== k k' (λ e. omega (arith, e, a.0, lt)) in
    rw miss (find-below (suc k') k m a.1 (omega (arith, a.0, lt)))

-- an entry is found by its service time
pub Holds-find :
    (i low : ℕ) (m : OrderedMap) (t : Tables) (j : ℕ)
    → Holds i m t
    → Ascends low m
    → Keyed m
    → i ≤ j
    → j < i + length m
    → (low ≤ (t.rtypes j).mean_ns) × (find (t.rtypes j).mean_ns m ≡ some (t.rtypes j))
Holds-find i low [] t j holds a keyed le lt = absurd (omega arith)
Holds-find i low ((k, v) ∷ m) t j holds a keyed le lt = elim (Bool-cases (j == i)) [
  | inl here ↦
      let hit : (v.mean_ns == k) ≡ true = ground (arith, keyed.0) in
      rw (==→eq j i here, holds.0, hit) (omega (arith, keyed.0, a.0), refl)
  | inr there ↦
      let rest =
        Holds-find (i + 1) (suc k) m t j holds.1 a.1 keyed.1 (ground (arith, le, there))
          (omega (arith, lt)) in
      let miss : ((t.rtypes j).mean_ns == k) ≡ false =
        ne→== (t.rtypes j).mean_ns k (λ e. omega (arith, e, rest.0)) in
      rw miss (omega (arith, rest.0, a.0), rest.1)
]

-- no type from here on has the service time
abbrev pub Unused : ℕ → List TypeNode → Type 0
Unused k [] = Unit
Unused k (node ∷ nodes) = ((t : ℕ × ℕ) → node.timing ≡ some t → t.0 ≢ k) × Unused k nodes

-- the types of the file have different service times
abbrev pub Distinct : List TypeNode → Type 0
Distinct [] = Unit
Distinct (node ∷ nodes) = ((t : ℕ × ℕ) → node.timing ≡ some t → Unused t.0 nodes) × Distinct nodes

length-insert-new :
    (k : ℕ) (v : NewType) (m : OrderedMap)
    → find k m ≡ none
    → length (insert k v m) ≡ suc (length m)
unfolding insert
length-insert-new k v [] e = refl
length-insert-new k v ((k', v') ∷ m) e = ground (arith, e, length-insert-new k v m)

-- the service times of these types are no keys of the map
abbrev pub Fresh : List TypeNode → OrderedMap → Type 0
Fresh [] m = Unit
Fresh (node ∷ nodes) m = ((t : ℕ × ℕ) → node.timing ≡ some t → find t.0 m ≡ none) × Fresh nodes m

Fresh-insert :
    (k : ℕ) (v : NewType) (nodes : List TypeNode) (m : OrderedMap)
    → Unused k nodes
    → Fresh nodes m
    → Fresh nodes (insert k v m)
Fresh-insert k v [] m unused fresh = tt
Fresh-insert k v (node ∷ nodes) m unused fresh = (
  λ t given.
      let miss : (t.0 == k) ≡ false = ne→== t.0 k (unused.0 t given) in
      find-insert t.0 k v m ∙ rw miss (fresh.0 t given),
  Fresh-insert k v nodes m unused.1 fresh.1,
)

pub length-register :
    (i : ℕ) (nodes : List TypeNode) (m : OrderedMap)
    → Timed nodes
    → Distinct nodes
    → Fresh nodes m
    → length (register i nodes m) ≡ length m + length nodes
unfolding register
length-register i [] m timed distinct fresh = omega arith
length-register i (node ∷ nodes) m timed distinct fresh =
    let (t, given) = timed.0 in
    let v = type_of node t in
    rw given (
      omega (
        arith,
        length-register (i + 1) nodes (insert t.0 v m) timed.1 distinct.1
            (Fresh-insert t.0 v nodes m (distinct.0 t given) fresh.1),
        length-insert-new t.0 v m (fresh.0 t given),
      ))

pub empty-Fresh : (nodes : List TypeNode) → Fresh nodes []
empty-Fresh [] = tt
empty-Fresh (node ∷ nodes) = (λ t given. refl, empty-Fresh nodes)
