-- ===== src/Base/Bits.antt =====
-- Facts about `&` and `|` at variables: the low bits by a mask, and one bit by a power of two.
use Prim.Native.Nat.{ℕ, zero, suc, ◌+◌, ◌-◌, ◌*◌, ◌/◌, ◌%◌, ◌^◌, ◌≤◌, ◌<◌, min, max}
use Prim.Native.Nat.{
  bit_and, bit_or, bit_xor, digits, differ, bit_and-bitwise, bit_or-bitwise, bit_xor-bitwise,
}
use mathlib.Core.Path.{◌≡◌, refl, ap}
use native.Mathlib.Omega.{arith}
use native.Mathlib.Nat.{pow-suc, mul_comm, div-div-eq-div-mul}

-- An operation on each pair of bits, and on what is left of the second number after the first. The
-- digits count down a number of rounds; any two that are enough give the same.
module _ (left : ℕ → ℕ) (bit : ℕ → ℕ → ℕ) where
  digits_rounds : (b k a l : ℕ) → a ≤ l → a ≤ k → digits left bit k a b ≡ digits left bit l a b
  digits_rounds b zero (suc a) l up to = absurd (omega arith)
  digits_rounds b (suc k) (suc a) zero up to = absurd (omega arith)
  digits_rounds b (suc k) (suc a) (suc l) up to =
      let halves = digits_rounds (b / 2) k (suc a / 2) l (omega arith) (omega arith) in
      omega (arith, halves)
  digits_rounds b zero zero zero up to = refl
  digits_rounds b zero zero (suc l) up to = refl
  digits_rounds b (suc k) zero zero up to = refl
  digits_rounds b (suc k) zero (suc l) up to = refl

  -- the lowest digit of a number above 0
  digits_low :
      (a b : ℕ)
      → digits left bit (suc a) (suc a) b
        ≡ digits left bit (suc a / 2) (suc a / 2) (b / 2) * 2 + bit (suc a % 2) (b % 2)
  digits_low a b =
      omega (arith, digits_rounds (b / 2) a (suc a / 2) (suc a / 2) (omega arith) (omega arith))

-- the lowest digit apart
and_low : (a b : ℕ) → bit_and a b ≡ bit_and (a / 2) (b / 2) * 2 + min (a % 2) (b % 2)
and_low zero b = omega (arith, bit_and-bitwise 0 b, bit_and-bitwise 0 (b / 2))
and_low (suc a) b = omega (
  arith,
  bit_and-bitwise (suc a) b,
  bit_and-bitwise (suc a / 2) (b / 2),
  digits_low (λ c. zero) min a b,
)

or_low : (a b : ℕ) → bit_or a b ≡ bit_or (a / 2) (b / 2) * 2 + max (a % 2) (b % 2)
or_low zero b = omega (arith, bit_or-bitwise 0 b, bit_or-bitwise 0 (b / 2))
or_low (suc a) b = omega (
  arith,
  bit_or-bitwise (suc a) b,
  bit_or-bitwise (suc a / 2) (b / 2),
  digits_low (λ c. c) max a b,
)

-- both with 0 on the right, for numbers up to a bound
zero_right : (top a : ℕ) → a ≤ top → (bit_and a 0 ≡ 0) × (bit_or a 0 ≡ a)
zero_right top zero up = (refl, refl)
zero_right zero (suc a) up = absurd (omega arith)
zero_right (suc top) (suc a) up =
    let half = zero_right top (suc a / 2) (omega arith) in
    (omega (arith, and_low (suc a) 0, half.0), omega (arith, or_low (suc a) 0, half.1))

bit_and-zero : (a : ℕ) → bit_and a 0 ≡ 0
bit_and-zero a = (zero_right a a (omega arith)).0

pub bit_or-zero : (a : ℕ) → bit_or a 0 ≡ a
bit_or-zero a = (zero_right a a (omega arith)).1

pow-pos : (k : ℕ) → 1 ≤ 2 ^ k
pow-pos zero = omega arith
pow-pos (suc k) = omega (arith, pow-suc 2 k, pow-pos k)

mod_double : (a p : ℕ) → 1 ≤ p → a % (p * 2) ≡ a / 2 % p * 2 + a % 2
mod_double a p h = grind arith

div_double : (a p : ℕ) → a / (p * 2) ≡ a / 2 / p
div_double a p = rw (div-div-eq-div-mul) (ap (λ t. a / t) (mul_comm p 2))

-- `a & (2^k - 1)` is the remainder by `2^k`
pub bit_and-mask : (k a : ℕ) → bit_and a (2 ^ k - 1) ≡ a % 2 ^ k
bit_and-mask zero a = omega (arith, bit_and-zero a)
bit_and-mask (suc k) a = rw pow-suc (
    rw and_low (
      rw (mod_double a (2 ^ k) (pow-pos k), low)
        (omega (arith, bit_and-mask k (a / 2), pow-pos k))))
  where
    low : (2 ^ k * 2 - 1) / 2 ≡ 2 ^ k - 1
    low = omega (arith, pow-pos k)

half : (k : ℕ) → 2 ^ k * 2 / 2 ≡ 2 ^ k
half k = omega arith

-- `a & 2^k` is bit `k` of `a`, in its place
pub bit_and-bit : (k a : ℕ) → bit_and a (2 ^ k) ≡ a / 2 ^ k % 2 * 2 ^ k
bit_and-bit zero a = omega (arith, and_low a 1, bit_and-zero (a / 2))
bit_and-bit (suc k) a =
    rw pow-suc
      (rw and_low (rw (div_double a (2 ^ k), half k) (rw (bit_and-bit k (a / 2)) (grind arith))))

-- `a | 2^k` sets a bit above all those of `a`
pub bit_or-bit : (k a : ℕ) → a < 2 ^ k → bit_or a (2 ^ k) ≡ a + 2 ^ k
bit_or-bit zero a h = omega (arith, or_low a 1, bit_or-zero (a / 2))
bit_or-bit (suc k) a h =
    rw pow-suc (
      rw or_low
        (rw (half k) (rw (bit_or-bit k (a / 2) (omega (arith, pow-suc 2 k))) (omega arith))))

pub xor_low : (a b : ℕ) → bit_xor a b ≡ bit_xor (a / 2) (b / 2) * 2 + differ (a % 2) (b % 2)
xor_low zero b = omega (arith, bit_xor-bitwise 0 b, bit_xor-bitwise 0 (b / 2))
xor_low (suc a) b = omega (
  arith,
  bit_xor-bitwise (suc a) b,
  bit_xor-bitwise (suc a / 2) (b / 2),
  digits_low (λ c. c) differ a b,
)

differ_self : (a : ℕ) → differ a a ≡ 0
differ_self zero = refl
differ_self (suc a) = differ_self a

pub differ_zero : (a : ℕ) → differ a 0 ≡ a
differ_zero zero = refl
differ_zero (suc a) = refl

xor_self : (top w : ℕ) → w ≤ top → bit_xor w w ≡ 0
xor_self top zero le = omega (arith, bit_xor-bitwise 0 0)
xor_self zero (suc w) le = absurd (omega arith)
xor_self (suc top) (suc w) le =
    let half = xor_self top (suc w / 2) (omega arith) in
    omega (arith, xor_low (suc w) (suc w), half, differ_self (suc w % 2))

-- the bits from `k` on, where a number below `2^k` has none
shifted : (k w : ℕ) → (w * (2 ^ k * 2) / 2 ≡ w * 2 ^ k) × (w * (2 ^ k * 2) % 2 ≡ 0)
shifted k w = (grind arith, grind arith)

-- above the bits of `a`, `a ^ (w << k)` adds what is shifted, as `|` would
pub bit_xor-shift : (k w a : ℕ) → a < 2 ^ k → bit_xor a (w * 2 ^ k) ≡ a + w * 2 ^ k
bit_xor-shift zero w a h =
    let none : a ≡ 0 = omega arith in rw none (omega (arith, bit_xor-bitwise 0 (w * 2 ^ 0)))
bit_xor-shift (suc k) w a h =
    let half = bit_xor-shift k w (a / 2) (omega (arith, pow-suc 2 k)) in
    rw pow-suc (
      rw (xor_low a (w * (2 ^ k * 2)), (shifted k w).0, (shifted k w).1, differ_zero (a % 2), half)
        (grind arith))

pub bit_or-shift : (k w a : ℕ) → a < 2 ^ k → bit_or a (w * 2 ^ k) ≡ a + w * 2 ^ k
bit_or-shift zero w a h =
    let none : a ≡ 0 = omega arith in rw none (omega (arith, bit_or-bitwise 0 (w * 2 ^ 0)))
bit_or-shift (suc k) w a h =
    let half = bit_or-shift k w (a / 2) (omega (arith, pow-suc 2 k)) in
    rw pow-suc
      (rw (or_low a (w * (2 ^ k * 2)), (shifted k w).0, (shifted k w).1, half) (grind arith))

-- and a second `^` takes it away
pub bit_xor-unshift : (k w a : ℕ) → a < 2 ^ k → bit_xor (a + w * 2 ^ k) (w * 2 ^ k) ≡ a
bit_xor-unshift zero w a h =
    let none : a ≡ 0 = omega arith in
    let same : 0 + w * 2 ^ 0 ≡ w * 2 ^ 0 = omega arith in
    rw (none, same) (xor_self (w * 2 ^ 0) (w * 2 ^ 0) (omega arith))
bit_xor-unshift (suc k) w a h =
    let half = bit_xor-unshift k w (a / 2) (omega (arith, pow-suc 2 k)) in
    let low : (a + w * (2 ^ k * 2)) / 2 ≡ a / 2 + w * 2 ^ k = grind arith in
    let bit : (a + w * (2 ^ k * 2)) % 2 ≡ a % 2 = grind arith in
    rw pow-suc (
      rw
        (
          xor_low (a + w * (2 ^ k * 2)) (w * (2 ^ k * 2)),
          (shifted k w).0,
          (shifted k w).1,
          low,
          bit,
          differ_zero (a % 2),
          half,
        )
        (omega arith))

pub bit_xor-zero : (a : ℕ) → bit_xor a 0 ≡ a
bit_xor-zero a = go a a (omega arith)
  where
    go : (top a : ℕ) → a ≤ top → bit_xor a 0 ≡ a
    go top zero le = refl
    go zero (suc a) le = absurd (omega arith)
    go (suc top) (suc a) le =
        omega (arith, go top (suc a / 2) (omega arith), xor_low (suc a) 0, differ_zero (suc a % 2))
