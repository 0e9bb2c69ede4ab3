-- ===== src/Base/Arrays.antt =====
-- A C array, or a region of memory, is a function of its index or address.
use Prim.Native.Nat.{ℕ}
use mathlib.Core.Path.{◌≡◌}
use mathlib.Core.Logic.{◌≢◌}
use native.Mathlib.Omega.{arith}
use psp.Base.Tests.{◌==◌, if◌then◌else◌}

abbrev pub Ptr : Type 0
Ptr = ℕ

abbrev pub null : Ptr
null = 0

module _ {ℓ} {A : Type ℓ} where
  -- `a[i] = v`
  unfoldable pub update : (ℕ → A) → ℕ → A → ℕ → A
  update a i v j = if j == i then v else a j

  pub update_self : (a : ℕ → A) (i : ℕ) (v : A) → update a i v i ≡ v
  unfolding update
  update_self a i v = ground arith

  pub update_ne : (a : ℕ → A) (i : ℕ) (v : A) (j : ℕ) → j ≢ i → update a i v j ≡ a j
  unfolding update
  update_ne a i v j h = ground arith
