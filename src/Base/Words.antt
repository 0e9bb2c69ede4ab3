-- ===== src/Base/Words.antt =====
-- `uint32_t` and `uint64_t` arithmetic: a word is a number, and each operation wraps.
use Prim.Native.Nat.{ℕ, ◌+◌, ◌-◌, ◌%◌, ◌^◌}

abbrev pub u32_mod : ℕ
u32_mod = 2 ^ 32

abbrev pub u64_mod : ℕ
u64_mod = 2 ^ 64

abbrev pub add32 : ℕ → ℕ → ℕ
add32 a b = (a + b) % u32_mod

-- `-` on ℕ stops at 0, so the modulus is added first
abbrev pub sub32 : ℕ → ℕ → ℕ
sub32 a b = (a + u32_mod - b) % u32_mod

abbrev pub add64 : ℕ → ℕ → ℕ
add64 a b = (a + b) % u64_mod

abbrev pub sub64 : ℕ → ℕ → ℕ
sub64 a b = (a + u64_mod - b) % u64_mod
