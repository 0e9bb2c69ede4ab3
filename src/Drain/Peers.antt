-- ===== src/Drain/Peers.antt =====
-- The mask of free peers as the list of their numbers.
use psp.Base.{
  ℕ, zero, suc, ◌+◌, ◌-◌, ◌*◌, ◌/◌, ◌%◌, ◌^◌, ◌≤◌, ◌<◌, ◌≡◌, refl, sym, ap, ◌∙◌, List, [], ◌∷◌, inl,
  inr, Bool-cases, ◌==◌, ==→eq, if◌then◌else◌, bit_xor, arith,
}
use mathlib.Core.Path.{subst}
use native.Mathlib.Nat.{pow-suc}
use native.Mathlib.Numerals.{towards_suc}
use psp.Base.Bits.{xor_low, bit_xor-zero}
use psp.Drain.{ctz}

-- the places of the bits that are set, of so many bits, in ascending order, where the first is `i`
unfoldable pub free_list : (bits i x : ℕ) → List ℕ
free_list zero i x = []
free_list (suc bits) i x =
    let rest = free_list bits (i + 1) (x / 2) in if x % 2 == 1 then i ∷ rest else rest

pub free_list-zero : (bits i : ℕ) → free_list bits i 0 ≡ []
unfolding free_list
free_list-zero zero i = refl
free_list-zero (suc bits) i = free_list-zero bits (i + 1)

module _ (bits i x : ℕ) where
  ctz-odd : x % 2 ≡ 1 → ctz (suc bits) x ≡ 0
  unfolding ctz
  ctz-odd odd = rw odd refl

  ctz-even : x % 2 ≡ 0 → ctz (suc bits) x ≡ ctz bits (x / 2) + 1
  unfolding ctz
  ctz-even even = rw even refl

  list-odd : x % 2 ≡ 1 → free_list (suc bits) i x ≡ i ∷ free_list bits (i + 1) (x / 2)
  unfolding free_list
  list-odd odd = rw odd refl

  list-even : x % 2 ≡ 0 → free_list (suc bits) i x ≡ free_list bits (i + 1) (x / 2)
  unfolding free_list
  list-even even = rw even refl

-- the bit at place `c` is the first of the list, and flipping it takes it off
pub record IsLowest (bits i x c : ℕ) : Type 0 where
  pub inside : 2 ^ c ≤ x
  pub first : free_list bits i x ≡ (i + c) ∷ free_list bits i (x - 2 ^ c)
  pub flip : bit_xor x (2 ^ c) ≡ x - 2 ^ c

odd_step : (bits i x : ℕ) → x % 2 ≡ 1 → IsLowest (suc bits) i x 0
odd_step bits i x odd = record {
  inside = omega arith;
  first =
      let half : (x - 1) / 2 ≡ x / 2 = omega arith in
      list-odd bits i x odd
      ∙ ap (λ k. k ∷ free_list bits (i + 1) (x / 2)) (omega arith)
      ∙ ap (λ l. (i + 0) ∷ l)
          (sym (list-even bits i (x - 1) (omega arith) ∙ ap (λ y. free_list bits (i + 1) y) half));
  flip = xor_low x 1 ∙ rw (bit_xor-zero (x / 2), odd) (omega arith);
}

even_step :
    (bits i x c : ℕ) → x % 2 ≡ 0 → IsLowest bits (i + 1) (x / 2) c → IsLowest (suc bits) i x (c + 1)
even_step bits i x c even low = record {
  inside = omega (arith, low.inside, double);
  first =
      list-even bits i x even
      ∙ low.first
      ∙ ap (λ k. k ∷ free_list bits (i + 1) (x / 2 - 2 ^ c)) (omega arith)
      ∙ ap (λ l. (i + (c + 1)) ∷ l)
          (sym (
            list-even bits i (x - 2 ^ (c + 1)) (omega (arith, double, low.inside))
            ∙ ap (λ y. free_list bits (i + 1) y) (omega (arith, double, low.inside))));
  flip =
      xor_low x (2 ^ (c + 1)) ∙ rw (half, none, even, low.flip) (omega (arith, double, low.inside));
}
  where
    double : 2 ^ (c + 1) ≡ 2 * 2 ^ c
    double = simp towards_suc (omega arith)

    half : 2 ^ (c + 1) / 2 ≡ 2 ^ c
    half = omega (arith, double)

    none : 2 ^ (c + 1) % 2 ≡ 0
    none = omega (arith, double)

pub ctz-IsLowest : (bits i x : ℕ) → 0 < x → x < 2 ^ bits → IsLowest bits i x (ctz bits x)
ctz-IsLowest zero i x pos lt = absurd (omega arith)
ctz-IsLowest (suc bits) i x pos lt = elim (Bool-cases (x % 2 == 1)) [
  | inl odd ↦
      let is = ==→eq (x % 2) 1 odd in
      subst (λ c. IsLowest (suc bits) i x c) (sym (ctz-odd bits i x is)) (odd_step bits i x is)
  | inr even ↦
      let is : x % 2 ≡ 0 = ground (arith, even) in
      subst (λ c. IsLowest (suc bits) i x c) (sym (ctz-even bits i x is))
        (even_step bits i x (ctz bits (x / 2)) is
          (ctz-IsLowest bits (i + 1) (x / 2) (ground (arith, is)) (omega (arith, pow-suc 2 bits))))
]
