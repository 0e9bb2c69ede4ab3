-- ===== src/Base/Runs.antt =====
-- How a call can end. `PSP_OK` and `PSP_TRUE` call `psp_fail`, whose default handler aborts.
use mathlib.Core.Bool.{Bool, true, false}
use psp.Base.Tests.{if◌then◌else◌}

-- `panic` is an abort of the process, `fault` a null pointer dereference or an access
-- outside a vector, and `stuck` a loop that used up the rounds which the model gives it.
pub data Run {ℓ} (A : Type ℓ) : Type ℓ where
  ok : A → Run A
  panic : Run A
  fault : Run A
  stuck : Run A

infixl 5 ◌>>=◌
abbrev pub ◌>>=◌ {ℓ κ} : {A : Type ℓ} {B : Type κ} → Run A → (A → Run B) → Run B
ok a >>= f = f a
panic >>= f = panic
fault >>= f = fault
stuck >>= f = stuck

-- A run ends in a result that satisfies `P`, or aborts; it neither writes through a null pointer nor
-- uses up its rounds.
abbrev pub Ends {ℓ} : {A : Type ℓ} → (A → Type 0) → Run A → Type 0
Ends P (ok a) = P a
Ends P panic = Unit
Ends P fault = ⊥
Ends P stuck = ⊥

pub Ends-bind {ℓ κ} :
    {A : Type ℓ} {B : Type κ} (P : A → Type 0) (Q : B → Type 0) (r : Run A) (f : A → Run B)
    → Ends P r
    → ((a : A) → P a → Ends Q (f a))
    → Ends Q (r >>= f)
Ends-bind P Q (ok a) f h g = g a h
Ends-bind P Q panic f h g = tt
Ends-bind P Q fault f h g = absurd h
Ends-bind P Q stuck f h g = absurd h

pub Ends-weaken {ℓ} :
    {A : Type ℓ} (P Q : A → Type 0) (r : Run A) → Ends P r → ((a : A) → P a → Q a) → Ends Q r
Ends-weaken P Q (ok a) h g = g a h
Ends-weaken P Q panic h g = tt
Ends-weaken P Q fault h g = h
Ends-weaken P Q stuck h g = h

-- A run ends, and a result that it returns satisfies `P`.
unfoldable pub Stops {ℓ} : {A : Type ℓ} → (A → Type 0) → Run A → Type 0
Stops P (ok a) = P a
Stops P panic = Unit
Stops P fault = Unit
Stops P stuck = ⊥

-- a run that ends
abbrev pub Ended {ℓ} : {A : Type ℓ} → Run A → Type 0
Ended r = Stops (λ a. Unit {0}) r

module _ {ℓ} {A : Type ℓ} (P : A → Type 0) where
  pub Stops-ok : (a : A) → P a → Stops P (ok a)
  unfolding Stops
  Stops-ok a h = h

  pub Stops-panic : Stops P panic
  unfolding Stops
  Stops-panic = tt

  pub Stops-fault : Stops P fault
  unfolding Stops
  Stops-fault = tt

  pub Stops-if : (b : Bool) (x y : Run A) → Stops P x → Stops P y → Stops P (if b then x else y)
  Stops-if true x y hx hy = hx
  Stops-if false x y hx hy = hy

  pub Stops-bind {κ} :
      {B : Type κ} (Q : B → Type 0) (r : Run A) (f : A → Run B)
      → Stops P r
      → ((a : A) → P a → Stops Q (f a))
      → Stops Q (r >>= f)
  unfolding Stops
  Stops-bind Q (ok a) f h g = g a h
  Stops-bind Q panic f h g = tt
  Stops-bind Q fault f h g = tt
  Stops-bind Q stuck f h g = absurd h

pub Stops-weaken {ℓ} :
    {A : Type ℓ} (P Q : A → Type 0) (r : Run A) → Stops P r → ((a : A) → P a → Q a) → Stops Q r
unfolding Stops
Stops-weaken P Q (ok a) h g = g a h
Stops-weaken P Q panic h g = tt
Stops-weaken P Q fault h g = tt
Stops-weaken P Q stuck h g = h

pub Ended-panic {ℓ} : (A : Type ℓ) → Ended {A = A} panic
Ended-panic A = Stops-panic (λ a. Unit)

pub Ended-fault {ℓ} : (A : Type ℓ) → Ended {A = A} fault
Ended-fault A = Stops-fault (λ a. Unit)

module _ {ℓ} {A : Type ℓ} where
  pub Ended-ok : (a : A) → Ended (ok a)
  Ended-ok a = Stops-ok (λ a'. Unit) a tt

  pub Ended-if : (b : Bool) (x y : Run A) → Ended x → Ended y → Ended (if b then x else y)
  Ended-if b x y hx hy = Stops-if (λ a. Unit) b x y hx hy

  pub Ended-bind {κ} :
      {B : Type κ} (r : Run A) (f : A → Run B) → Ended r → ((a : A) → Ended (f a)) → Ended (r >>= f)
  Ended-bind r f h g = Stops-bind (λ a. Unit) (λ b. Unit) r f h (λ a u. g a)

pub ruleset ending = (Ended-ok, Ended-panic, Ended-fault, Ended-if, Ended-bind)
