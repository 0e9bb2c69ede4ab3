-- ===== src/Sampling/Examples.antt =====
-- Five items of which two are asked for, and three of which two are.
use psp.Base.{ℕ, ◌≡◌, refl, arith, List, [], ◌∷◌, ok}
use psp.Sampling.{sample_into}
use psp.Sampling.Count.{IsSampled, sample_into-IsSampled}

abbrev five : List ℕ
five = 1 ∷ 2 ∷ 3 ∷ 4 ∷ 5 ∷ []

five_sampled : sample_into (λ xs. xs) (λ xs. xs) 2 five (0 ∷ []) ≡ ok (0 ∷ 1 ∷ 3 ∷ 5 ∷ [])
unfolding sample_into psp.Sampling.at psp.Sampling.pick
five_sampled = refl

abbrev three : List ℕ
three = 1 ∷ 2 ∷ 3 ∷ []

-- one more than asked for
three_sampled : sample_into (λ xs. xs) (λ xs. xs) 2 three [] ≡ ok three
unfolding sample_into psp.Sampling.at psp.Sampling.pick
three_sampled = refl

sample_into-IsSampled_example : IsSampled (λ xs. xs) (λ xs. xs) 2 five (0 ∷ [])
sample_into-IsSampled_example =
    sample_into-IsSampled (λ xs. xs) (λ xs. xs) (λ xs. refl) 2 five (0 ∷ []) (omega arith)
