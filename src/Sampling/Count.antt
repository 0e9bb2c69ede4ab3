-- ===== src/Sampling/Count.antt =====
-- How many items `sample_into` of client.hh keeps.
use psp.Base.{
  ℕ, zero, suc, ◌+◌, ◌-◌, ◌*◌, ◌/◌, ◌≤◌, ◌<◌, ◌≡◌, refl, sym, ap, ◌∙◌, true, false, List, [], ◌∷◌,
  ◌++◌, length, length-append, drop, length-drop, arith, ltb, leb, ltb→lt, not_ltb→le, not_leb→lt,
  Bool-cases, ne→==, inl, inr, if◌then◌else◌, ok,
}
use native.Mathlib.Nat.{div-eq_of_lt, div-eq-sub-div}
use psp.Sampling.{at, pick, sample_into}

monus_add : (a b c : ℕ) → a - (b + c) ≡ a - b - c
monus_add a b c = omega arith

-- one step more of `spacing` below the last item
one_more :
    (size spacing i : ℕ)
    → 1 ≤ spacing
    → i < size - 1
    → suc ((size + spacing - 2 - (i + spacing)) / spacing) ≡ (size + spacing - 2 - i) / spacing
one_more size spacing i pos lt = omega (
  arith,
  ap (λ n. n / spacing) (monus_add (size + spacing - 2) i spacing),
  div-eq-sub-div {m = spacing} {n = size + spacing - 2 - i} pos (omega arith),
)

-- how many of so many items are kept
abbrev pub kept : (n size : ℕ) → ℕ
kept n size = if leb size n then size else 2 + (size - 2) / (size / n)

some_space : (n size : ℕ) → 1 ≤ n → n < size → 1 ≤ size / n
some_space n size pos lt = omega (arith, div-eq-sub-div {m = n} {n = size} pos (omega arith))

module _ {ℓ} {A : Type ℓ} where
  -- an item that is there
  pub at-inside : (from : List A) (i : ℕ) → i < length from → (x : A) × (at from i ≡ ok x)
  unfolding at
  at-inside from i lt = go (drop i from) refl
    where
      go : (rest : List A) → drop i from ≡ rest → (x : A) × (at from i ≡ ok x)
      go [] e = absurd (omega (arith, length-drop i from, ap length e))
      go (x ∷ xs) e = rw (at, e) (x, refl)

  -- the place of each item that is picked from `i` on
  abbrev pub Picked : (i spacing : ℕ) → (from xs : List A) → Type ℓ
  Picked i spacing from xs = (j : ℕ) → j < length xs → at xs j ≡ at from (i + j * spacing)

  Picked-step :
      (i spacing : ℕ) (from xs : List A) (x : A)
      → at from i ≡ ok x
      → Picked (i + spacing) spacing from xs
      → Picked i spacing from (x ∷ xs)
  unfolding at
  Picked-step i spacing from xs x found rest zero lt =
      let here : i + 0 * spacing ≡ i = omega arith in rw here (sym found)
  Picked-step i spacing from xs x found rest (suc j) lt =
      let there : i + spacing + j * spacing ≡ i + suc j * spacing = grind arith in
      rest j (omega (arith, lt)) ∙ ap (at from) there

  -- the items from `i` on, up to the last but one
  pick-count :
      (rounds i spacing : ℕ) (from : List A)
      → 1 ≤ spacing
      → 1 ≤ rounds
      → length from < i + rounds
      → (xs : List A) × (pick rounds i spacing from ≡ ok xs)
        × (length xs ≡ (length from + spacing - 2 - i) / spacing)
        × Picked i spacing from xs
  unfolding pick
  pick-count zero i spacing from pos some_round enough = absurd (omega arith)
  pick-count (suc rounds) i spacing from pos some_round enough =
      elim (Bool-cases (ltb i (length from - 1))) [
        | inl inside ↦
            more inside (at-inside from i (omega (arith, ltb→lt i (length from - 1) inside))) (
              pick-count rounds (i + spacing) spacing from pos
                (omega (arith, ltb→lt i (length from - 1) inside)) (omega arith))
        | inr past ↦ (
          [],
          rw past refl,
          sym (
              div-eq_of_lt {n = length from + spacing - 2 - i} {m = spacing}
                (omega (arith, not_ltb→le i (length from - 1) past))),
          λ j lt. absurd (omega (arith, lt)),
        )
      ]
    where
      more :
          ltb i (length from - 1) ≡ true
          → ((x : A) × (at from i ≡ ok x))
          → ((xs : List A) × (pick rounds (i + spacing) spacing from ≡ ok xs)
              × (length xs ≡ (length from + spacing - 2 - (i + spacing)) / spacing)
              × Picked (i + spacing) spacing from xs)
          → (xs : List A) × (pick (suc rounds) i spacing from ≡ ok xs)
            × (length xs ≡ (length from + spacing - 2 - i) / spacing)
            × Picked i spacing from xs
      more inside (x, found) (xs, picked, count, places) = (
        x ∷ xs,
        rw (inside, found, picked) refl,
        ap suc count ∙ one_more (length from) spacing i pos (ltb→lt i (length from - 1) inside),
        Picked-step i spacing from xs x found places,
      )

  -- What is sampled of `from`, of which `sorted` is the order by latency: all items as they came if they
  -- are no more than `n`, and else the first, those at the multiples of `size / n` below the last place,
  -- and the last one of that order.
  pub record Sampled (n : ℕ) (from sorted zs : List A) : Type ℓ where
    pub count : length zs ≡ kept n (length from)
    pub all : length from ≤ n → zs ≡ from
    pub first : n < length from → at zs 0 ≡ at sorted 0
    pub between :
        n < length from
        → (j : ℕ) → j < (length from - 2) / (length from / n)
        → at zs (suc j) ≡ at sorted (suc j * (length from / n))
    pub last :
        n < length from
        → at zs (suc ((length from - 2) / (length from / n))) ≡ at sorted (length from - 1)

  at-append : (xs ys : List A) (j : ℕ) → j < length xs → at (xs ++ ys) j ≡ at xs j
  unfolding at
  at-append [] ys j lt = absurd (omega arith)
  at-append (x ∷ xs) ys zero lt = refl
  at-append (x ∷ xs) ys (suc j) lt = at-append xs ys j (omega (arith, lt))

  at-end : (xs : List A) (x : A) → at (xs ++ (x ∷ [])) (length xs) ≡ ok x
  unfolding at
  at-end [] x = refl
  at-end (y ∷ xs) x = at-end xs x

  spread-Sampled :
      (n spacing : ℕ) (from sorted picked : List A) (first last : A)
      → n < length from
      → length from / n ≡ spacing
      → at sorted 0 ≡ ok first
      → at sorted (length from - 1) ≡ ok last
      → length picked ≡ (length from - 2) / spacing
      → Picked spacing spacing sorted picked
      → Sampled n from sorted ((first ∷ picked) ++ (last ∷ []))
  unfolding at
  spread-Sampled n spacing from sorted picked first last lt is at_first at_last count places =
      let many : leb (length from) n ≡ false = ground (arith, lt) in
      let counted : length picked ≡ (length from - 2) / (length from / n) = rw is count in
      record {
        count = rw many (omega (arith, counted, length-append (first ∷ picked) (last ∷ [])));
        all = λ le. absurd (omega (arith, le, lt));
        first = λ more. sym at_first;
        between = λ more j below.
            at-append picked (last ∷ []) j (omega (arith, counted, below))
            ∙ places j (omega (arith, counted, below))
            ∙ ap (at sorted) (times j);
        last = λ more.
            ap (at (picked ++ (last ∷ []))) (sym counted) ∙ at-end picked last ∙ sym at_last;
      }
    where
      times : (j : ℕ) → spacing + j * spacing ≡ suc j * (length from / n)
      times j = rw is (grind arith)

  -- the log with a sample of `from`; where there is nothing to sample, it is left unsorted
  abbrev pub logged : (sort_time : List A → List A) → (from to sample : List A) → List A
  logged sort_time [] to sample = to
  logged sort_time (x ∷ xs) to sample = sort_time (to ++ sample)

  -- the result of `sample_into`
  pub record IsSampled (sort_lat sort_time : List A → List A) (n : ℕ) (from to : List A)
      : Type ℓ where
    pub sample : List A
    pub runs : sample_into sort_lat sort_time n from to ≡ ok (logged sort_time from to sample)
    pub sampled : Sampled n from (sort_lat from) sample

  few-Sampled : (n : ℕ) (from sorted : List A) → length from ≤ n → Sampled n from sorted from
  few-Sampled n from sorted le =
      let few : leb (length from) n ≡ true = ground (arith, le) in
      record {
        count = rw few refl;
        all = λ le'. refl;
        first = λ lt. absurd (omega (arith, le, lt));
        between = λ lt j below. absurd (omega (arith, le, lt));
        last = λ lt. absurd (omega (arith, le, lt));
      }

  many-IsSampled :
      (sort_lat sort_time : List A → List A) (n : ℕ) (x : A) (xs to : List A)
      → ((ys : List A) → length (sort_lat ys) ≡ length ys)
      → 1 ≤ n
      → n < length (x ∷ xs)
      → IsSampled sort_lat sort_time n (x ∷ xs) to
  unfolding sample_into
  many-IsSampled sort_lat sort_time n x xs to keeps pos lt =
      let from = x ∷ xs in
      let size = length from in
      let spacing = size / n in
      let spaced : 1 ≤ spacing = some_space n size pos lt in
      let sorted = sort_lat from in
      let same : length sorted ≡ size = keeps from in
      let first = at-inside sorted 0 (omega (arith, same, lt)) in
      let last = at-inside sorted (size - 1) (omega (arith, same, lt)) in
      let (picked, taken, count, places) =
        pick-count size spacing spacing sorted spaced (omega (arith, lt))
          (omega (arith, same, spaced)) in
      let many : leb size n ≡ false = ground (arith, lt) in
      let counted : length picked ≡ (size - 2) / spacing =
        count ∙ ap (λ k. k / spacing) (omega (arith, same)) in
      record {
        sample = (first.0 ∷ picked) ++ (last.0 ∷ []);
        runs =
            rw
              (
                many,
                ne→== n 0 (λ e. omega (arith, e, pos)),
                ne→== spacing 0 (λ e. omega (arith, e, spaced)),
                first.1,
                taken,
                last.1,
              )
              refl;
        sampled =
            spread-Sampled n spacing from sorted picked first.0 last.0 lt refl first.1 last.1
              counted places;
      }

  -- `sample_into` that asks for `n` items, at least one, never reads outside the vector when the sort by
  -- latency keeps the number of items. It appends to the log all the items of `from` when they are no
  -- more than `n`; else, in their order by latency, the first, those at the multiples of `size / n`
  -- below the last place, which are as many as `size / n` goes into `size - 2`, and the last, where
  -- `size` is the number of items. If there are items, it then sorts the log by time.
  pub sample_into-IsSampled :
      (sort_lat sort_time : List A → List A)
      → ((xs : List A) → length (sort_lat xs) ≡ length xs)
      → (n : ℕ) (from to : List A) → 1 ≤ n
      → IsSampled sort_lat sort_time n from to
  unfolding sample_into
  sample_into-IsSampled sort_lat sort_time keeps n [] to pos = record {
    sample = [];
    runs = refl;
    sampled = few-Sampled n [] (sort_lat []) (omega arith);
  }
  sample_into-IsSampled sort_lat sort_time keeps n (x ∷ xs) to pos =
      elim (Bool-cases (leb (length (x ∷ xs)) n)) [
        | inl few ↦ record {
          sample = x ∷ xs;
          runs = rw few refl;
          sampled = few-Sampled n (x ∷ xs) (sort_lat (x ∷ xs)) (ground (arith, few));
        }
        | inr many ↦
            many-IsSampled sort_lat sort_time n x xs to keeps pos
              (not_leb→lt (length (x ∷ xs)) n many)
      ]
