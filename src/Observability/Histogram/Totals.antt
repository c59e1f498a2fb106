-- ===== src/Observability/Histogram/Totals.antt =====
-- What a histogram of crates/torvyn-observability/src/metrics/histogram.rs holds after some values.
use torvyn.Common.{
  ℕ, suc, ◌+◌, ◌≤◌, ◌<◌, ◌≡◌, refl, subst, ◌∙◌, inl, inr, Bool, true, false, List, [], ◌∷◌, ◌==◌,
  ltb, if◌then◌else◌, length, length-set, length-replicate, set, arith, index_cases, Run, returns,
  ◌>>=◌,
}
use torvyn.Common.Word.{u64, u64_max}
use torvyn.Common.Counts.{
  get_or, get_or-set_self, get_or-set_ne, get_or-replicate, get_elem?-get_or, count,
}
use torvyn.Observability.Histogram.{Histogram, new, binary_search, bucket_idx, record_value}
use torvyn.Observability.Histogram.Buckets.{Ascending, falls, search-falls}

-- A run that records values, the last one first in the list.
unfoldable pub record_all : Histogram → List ℕ → Run Histogram
record_all h [] = returns h
record_all h (value ∷ values) = record_all h values >>= λ before. record_value before value

unfoldable pub total : List ℕ → ℕ
total [] = 0
total (value ∷ values) = value + total values

unfoldable pub count_where : (ℕ → Bool) → List ℕ → ℕ
count_where test [] = 0
count_where test (value ∷ values) =
    let rest = count_where test values in if test value then suc rest else rest

-- The histogram of the values, its counts as machine words.
pub record Tells (boundaries values : List ℕ) (h : Histogram) : Type 0 where
  pub same : h.boundaries ≡ boundaries
  pub size : length h.buckets ≡ length boundaries + 1
  pub counted : h.count ≡ u64 (length values)
  pub summed : h.sum ≡ u64 (total values)
  pub buckets :
      (i : ℕ)
      → i ≤ length boundaries
      → get_or h.buckets i 0 ≡ u64 (count_where (falls boundaries i) values)
  pub lowest : (value : ℕ) → 0 < count value values → h.min ≤ value
  pub lowest_seen : 0 < length values → 0 < count h.min values
  pub highest : (value : ℕ) → 0 < count value values → value ≤ h.max
  pub highest_seen : 0 < length values → 0 < count h.max values
  pub none_seen : length values ≡ 0 → (h.min ≡ u64_max) × (h.max ≡ 0)

new-Tells : (boundaries : List ℕ) → Tells boundaries [] (new boundaries)
unfolding new total count_where count
new-Tells boundaries = record {
  same = refl;
  size = length-replicate (length boundaries + 1) 0;
  counted = refl;
  summed = refl;
  buckets = λ i le. get_or-replicate (length boundaries + 1) i 0;
  lowest = λ value h. absurd (omega arith);
  lowest_seen = λ h. absurd (omega arith);
  highest = λ value h. absurd (omega arith);
  highest_seen = λ h. absurd (omega arith);
  none_seen = λ h. (refl, refl);
}

module _ (boundaries values : List ℕ) (value : ℕ) (h : Histogram) (ascend : Ascending boundaries)
    (t : Tells boundaries values h) (word : value ≤ u64_max) where
  idx : ℕ
  idx = bucket_idx (binary_search 0 boundaries value)

  after : Histogram
  after = record h {
    buckets = set h.buckets idx (u64 (get_or h.buckets idx 0 + 1));
    sum = u64 (h.sum + value);
    count = u64 (h.count + 1);
    min = if ltb value h.min then value else h.min;
    max = if ltb h.max value then value else h.max;
  }

  idx_inside : idx < length h.buckets
  unfolding idx
  idx_inside = omega (arith, (search-falls boundaries value ascend).0, t.size)

  record_value-after : record_value h value ≡ returns after
  unfolding record_value after idx
  record_value-after = rw (t.same, get_elem?-get_or h.buckets idx 0 idx_inside) refl

  after_bucket :
      (i : ℕ)
      → i ≤ length boundaries
      → get_or after.buckets i 0 ≡ u64 (count_where (falls boundaries i) (value ∷ values))
  unfolding after idx count_where
  after_bucket i le =
      let fall : falls boundaries i value ≡ (idx == i) =
        (search-falls boundaries value ascend).1 i le in
      elim (index_cases idx i) [
        | inl here ↦
            let hit : falls boundaries i value ≡ true = fall ∙ ground (arith, here) in
            rw hit (
              subst
                (λ (n : ℕ).
                  get_or (set h.buckets idx (u64 (get_or h.buckets idx 0 + 1))) n 0
                  ≡ u64 (suc (count_where (falls boundaries n) values)))
                here
                (get_or-set_self h.buckets idx (u64 (get_or h.buckets idx 0 + 1)) 0 idx_inside
                  ∙ omega (arith, t.buckets idx (search-falls boundaries value ascend).0)))
        | inr elsewhere ↦
            let miss : falls boundaries i value ≡ false = fall ∙ ground (arith, elsewhere) in
            rw miss (
              get_or-set_ne h.buckets idx i (u64 (get_or h.buckets idx 0 + 1)) 0 elsewhere
              ∙ t.buckets i le)
      ]

  after-Tells : Tells boundaries (value ∷ values) after
  unfolding after total count
  after-Tells = record {
    same = t.same;
    size = length-set h.buckets idx (u64 (get_or h.buckets idx 0 + 1)) ∙ t.size;
    counted = omega (arith, t.counted);
    summed = omega (arith, t.summed);
    buckets = after_bucket;
    lowest = λ v p. ground (arith, p, t.lowest v);
    lowest_seen = λ p. elim (index_cases (length values) 0) [
      | inl first ↦ ground (arith, t.none_seen first, word)
      | inr more ↦ ground (arith, t.lowest_seen (omega (arith, more)))
    ];
    highest = λ v p. ground (arith, p, t.highest v);
    highest_seen = λ p. elim (index_cases (length values) 0) [
      | inl first ↦ ground (arith, t.none_seen first)
      | inr more ↦ ground (arith, t.highest_seen (omega (arith, more)))
    ];
    none_seen = λ p. absurd (omega (arith, p));
  }

abbrev pub AllWords : List ℕ → Type 0
AllWords [] = Unit {0}
AllWords (value ∷ values) = (value ≤ u64_max) × AllWords values

-- In a build without debug assertions, a histogram with ascending boundaries never panics, and tells of the values recorded since it was new,
-- whichever they are: their number and sum and the number in each bucket, each modulo 2^64, where a value
-- falls in the bucket of the first boundary that is not below it, and the least and the greatest of them.
pub record_all-Tells :
    (boundaries values : List ℕ)
    → Ascending boundaries
    → AllWords values
    → (h : Histogram) × (record_all (new boundaries) values ≡ returns h) × Tells boundaries values h
unfolding record_all
record_all-Tells boundaries [] ascend words = (new boundaries, refl, new-Tells boundaries)
record_all-Tells boundaries (value ∷ values) ascend (word, words) =
    let (h, run, t) = record_all-Tells boundaries values ascend words in
    (
      after boundaries values value h ascend t word,
      rw run (record_value-after boundaries values value h ascend t word),
      after-Tells boundaries values value h ascend t word,
    )
