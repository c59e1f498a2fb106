-- ===== src/Observability/Histogram/Buckets.antt =====
-- The bucket of a value in crates/torvyn-observability/src/metrics/histogram.rs.
use torvyn.Common.{
  ℕ, zero, suc, ◌+◌, ◌-◌, ◌≤◌, ◌<◌, ◌≡◌, subst, inl, inr, Bool, ◌&&◌, ◌||◌, List, [], ◌∷◌, ◌==◌,
  ltb, leb, length, arith, Bool-cases,
}
use torvyn.Common.Counts.{get_or}
use torvyn.Observability.Histogram.{binary_search, bucket_idx}

-- The boundaries ascend, as `new` asserts in a debug build.
abbrev pub Ascending : List ℕ → Type 0
Ascending [] = Unit {0}
Ascending (a ∷ []) = Unit {0}
Ascending (a ∷ b ∷ boundaries) = (a < b) × Ascending (b ∷ boundaries)

-- A value lies above the boundary before a bucket, and not above the one after it.
abbrev pub falls : List ℕ → ℕ → ℕ → Bool
falls boundaries i value =
    (i == 0 || ltb (get_or boundaries (i - 1) 0) value)
    && (i == length boundaries || leb value (get_or boundaries i 0))

-- The boundaries before an index lie below the value, and the others do not.
record Splits (boundaries : List ℕ) (value k : ℕ) : Type 0 where
  inside : k ≤ length boundaries
  below : (j : ℕ) → j < k → get_or boundaries j 0 < value
  above : (j : ℕ) → k ≤ j → j < length boundaries → value ≤ get_or boundaries j 0

Ascending-le :
    (a : ℕ) (boundaries : List ℕ) (j : ℕ)
    → Ascending (a ∷ boundaries)
    → j < length (a ∷ boundaries)
    → a ≤ get_or (a ∷ boundaries) j 0
Ascending-le a boundaries zero h lt = omega arith
Ascending-le a [] (suc j) h lt = absurd (omega arith)
Ascending-le a (b ∷ boundaries) (suc j) (first, rest) lt =
    omega (arith, first, Ascending-le b boundaries j rest (omega (arith, lt)))

Ascending-tail : (a : ℕ) (boundaries : List ℕ) → Ascending (a ∷ boundaries) → Ascending boundaries
Ascending-tail a [] h = tt
Ascending-tail a (b ∷ boundaries) h = h.1

search-Splits :
    (n : ℕ) (boundaries : List ℕ) (value : ℕ)
    → Ascending boundaries
    → (k : ℕ) × (bucket_idx (binary_search n boundaries value) ≡ n + k) × Splits boundaries value k
unfolding binary_search bucket_idx
search-Splits n [] value h = (
  0,
  omega arith,
  record {
    inside = omega arith;
    below = λ j lt. absurd (omega arith);
    above = λ j le lt. absurd (omega arith);
  },
)
search-Splits n (b ∷ boundaries) value h =
    let first = λ (j : ℕ) (lt : j < suc (length boundaries)). Ascending-le b boundaries j h lt in
    elim (Bool-cases (b == value)) [
      | inl exact ↦ (
        0,
        rw exact (omega arith),
        record {
          inside = omega arith;
          below = λ j lt. absurd (omega arith);
          above = λ j le lt. ground (arith, exact, first j lt);
        },
      )
      | inr differs ↦ elim (Bool-cases (ltb value b)) [
        | inl lower ↦ (
          0,
          rw (differs, lower) (omega arith),
          record {
            inside = omega arith;
            below = λ j lt. absurd (omega arith);
            above = λ j le lt. ground (arith, lower, first j lt);
          },
        )
        | inr higher ↦
            let (k, at, s) =
              search-Splits (suc n) boundaries value (Ascending-tail b boundaries h) in
            (
              suc k,
              rw (differs, higher) (omega (arith, at)),
              record {
                inside = omega (arith, s.inside);
                below = below_all k boundaries s.below (ground (arith, differs, higher));
                above = above_all k boundaries s.above;
              },
            )
      ]
    ]
  where
    below_all :
        (k : ℕ) (boundaries : List ℕ)
        → ((j : ℕ) → j < k → get_or boundaries j 0 < value)
        → b < value
        → (j : ℕ) → j < suc k
        → get_or (b ∷ boundaries) j 0 < value
    below_all k boundaries h first zero lt = first
    below_all k boundaries h first (suc j) lt = h j (omega (arith, lt))

    above_all :
        (k : ℕ) (boundaries : List ℕ)
        → ((j : ℕ) → k ≤ j → j < length boundaries → value ≤ get_or boundaries j 0)
        → (j : ℕ) → suc k ≤ j
        → j < suc (length boundaries)
        → value ≤ get_or (b ∷ boundaries) j 0
    above_all k boundaries h zero le lt = absurd (omega (arith, le))
    above_all k boundaries h (suc j) le lt = h j (omega (arith, le)) (omega (arith, lt))

-- The bucket that the search picks is the only one in which the value falls.
pub search-falls :
    (boundaries : List ℕ) (value : ℕ)
    → Ascending boundaries
    → (bucket_idx (binary_search 0 boundaries value) ≤ length boundaries)
      × ((i : ℕ)
          → i ≤ length boundaries
          → falls boundaries i value ≡ (bucket_idx (binary_search 0 boundaries value) == i))
search-falls boundaries value h =
    let (k, at, s) = search-Splits 0 boundaries value h in
    let e : k ≡ bucket_idx (binary_search 0 boundaries value) = omega (arith, at) in
    subst
      (λ (n : ℕ).
        (n ≤ length boundaries)
        × ((i : ℕ) → i ≤ length boundaries → falls boundaries i value ≡ (n == i)))
      e
      (
        s.inside,
        λ i le.
            ground (arith, le, s.inside, s.below i, s.below (i - 1), s.above i, s.above (i - 1)),
      )
