-- ===== src/Config/Examples.antt =====
-- Two types, the slower one first.
use psp.Base.{ℕ, zero, suc, ◌≤◌, ◌<◌, ◌≡◌, refl, none, some, List, [], ◌∷◌, arith, ok, fault}
use psp.ReqType.{unknown, short, str_to_type}
use psp.Config.{TypeNode, Tables, register_types}
use psp.Config.Order.{Timed}
use psp.Config.Latest.{latest, Unused, Distinct}
use psp.Config.Policy.{darc}
use psp.Config.Registered.{Registered, register_types-Registered, register_types-overflow}

abbrev typed : ℕ → TypeNode
typed mean = record { type_name = "SHORT"; timing = some (mean, 10) }

abbrev long_and_short : List TypeNode
long_and_short =
    record { type_name = "LONG"; timing = some (500, 10) }
    ∷ record { type_name = "SHORT"; timing = some (5, 10) }
    ∷ []

abbrev no_tables : Tables
no_tables = record {
  rtypes = λ i. record { type = unknown; mean_ns = 0; deadline = 0 };
  n_rtypes = 0;
  type_to_nsorder = λ i. 0;
}

register_types-Registered_example :
    (n : ℕ) × (t' : Tables) × (n ≤ 2)
    × (register_types darc (some long_and_short) no_tables ≡ ok t')
    × Registered long_and_short n t'
register_types-Registered_example =
    register_types-Registered darc long_and_short no_tables refl
      (((500, 10), refl), (((5, 10), refl), tt)) (omega arith)

-- of two types with the same service time the last is kept
same_time :
    latest 5 (record { type_name = "LONG"; timing = some (5, 1) } ∷ long_and_short) none
    ≡ some (record { type = short; mean_ns = 5; deadline = 10 })
unfolding str_to_type
same_time = refl

-- the service times from `k` on, one apart
abbrev typed_from : ℕ → ℕ → List TypeNode
typed_from zero k = []
typed_from (suc n) k = typed k ∷ typed_from n (suc k)

typed_from-Timed : (n k : ℕ) → Timed (typed_from n k)
typed_from-Timed zero k = tt
typed_from-Timed (suc n) k = (((k, 10), refl), typed_from-Timed n (suc k))

typed_from-Unused : (n k low : ℕ) → low < k → Unused low (typed_from n k)
typed_from-Unused zero k low lt = tt
typed_from-Unused (suc n) k low lt = (
  λ t given e. let same : k ≡ t.0 = cc given in omega (arith, same, e, lt),
  typed_from-Unused n (suc k) low (omega (arith, lt)),
)

typed_from-Distinct : (n k : ℕ) → Distinct (typed_from n k)
typed_from-Distinct zero k = tt
typed_from-Distinct (suc n) k = (
  λ t given. let same : k ≡ t.0 = cc given in typed_from-Unused n (suc k) t.0 (omega (arith, same)),
  typed_from-Distinct n (suc k),
)

register_types-overflow_example : register_types darc (some (typed_from 12 1)) no_tables ≡ fault
register_types-overflow_example =
    register_types-overflow darc (typed_from 12 1) no_tables refl (typed_from-Timed 12 1)
      (typed_from-Distinct 12 1) refl
