-- ===== src/Sampling.antt =====
-- src/c++/apps/client/client.hh: `sample_into`, which keeps a number of the requests of a type for the
-- log. `std::sort` by latency and by time are parameters; the one by time leaves a vector as it is where
-- there is no `time_get`.
mod Examples
pub mod Count
use psp.Base.{
  ℕ, zero, suc, ◌+◌, ◌-◌, ◌/◌, Bool, Option, none, some, List, [], ◌∷◌, ◌++◌, length, drop, ltb,
  leb, ◌==◌, if◌then◌else◌, Run, ok, fault, stuck, ◌>>=◌,
}

module _ {ℓ} {A : Type ℓ} where
  -- `from[i]`
  unfoldable pub at : List A → ℕ → Run A
  at from i = elim (drop i from) [ [] ↦ fault | x ∷ xs ↦ ok x ]

  -- the loop that takes an item at each multiple of `spacing`, from `i` on, for so many rounds
  unfoldable pub pick : (rounds i spacing : ℕ) → List A → Run (List A)
  pick zero i spacing from = stuck
  pick (suc rounds) i spacing from =
      if ltb i (length from - 1)
      then (do x ← at from i; xs ← pick rounds (i + spacing) spacing from; ok (x ∷ xs))
      else ok []

  -- `sample_into`; the result is what `to` holds. A vector has less than 2^31 items.
  unfoldable pub sample_into :
      (sort_lat sort_time : List A → List A) → (n : ℕ) → (from to : List A) → Run (List A)
  sample_into sort_lat sort_time n [] to = ok to
  sample_into sort_lat sort_time n (x ∷ xs) to =
      let size = length (x ∷ xs) in
      if leb size n
      then ok (sort_time (to ++ (x ∷ xs)))
      else if n == 0
      then fault
      else (let from = sort_lat (x ∷ xs) in
          let spacing = if size / n == 0 then 1 else size / n in
          do
            first ← at from 0
            picked ← pick size spacing spacing from
            last ← at from (size - 1)
            ok (sort_time (to ++ ((first ∷ picked) ++ (last ∷ [])))))
