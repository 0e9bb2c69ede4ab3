-- ===== src/Base.antt =====
-- What the modules share: the libraries' names, Boolean tests, updates of arrays, and results.
pub mod Bits
pub mod Window
mod Tests
mod Arrays
mod Runs
mod Lists
mod Words
mod Ints
pub mod Maps
pub use Tests.*
unfoldable pub use Arrays.*
unfoldable pub use Runs.*
pub use Lists.*
pub use Words.*
pub use Ints.*
pub use Prim.Native.Nat.{ℕ, zero, suc, ◌+◌, ◌-◌, ◌*◌, ◌/◌, ◌%◌, ◌^◌, ◌≤◌, ◌<◌, min, max}
pub use Prim.Native.Nat.{bit_and, bit_or, bit_xor}
pub use mathlib.Core.Path.{◌≡◌, refl, sym, ap, ◌∙◌}
pub use mathlib.Core.Logic.{◌≢◌, ◌↔◌, ◌⊎◌, inl, inr}
pub use mathlib.Core.Bool.{Bool, true, false, ◌&&◌, ◌||◌, not}
pub use mathlib.Core.Option.{Option, none, some}
pub use mathlib.Core.List.{List, [], ◌∷◌, ◌++◌, append-nil, append_assoc}
pub use native.Mathlib.Omega.{arith}
