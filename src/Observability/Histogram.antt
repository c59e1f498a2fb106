-- ===== src/Observability/Histogram.antt =====
-- crates/torvyn-observability/src/metrics/histogram.rs: counts of values by the buckets between sorted
-- boundaries. An update of an atomic is one step; an index out of bounds is a panic. A
-- build without debug assertions: `new` tests nothing.
pub mod Buckets
pub mod Totals
use torvyn.Common.{
  ℕ, zero, suc, ◌+◌, List, [], ◌∷◌, ◌==◌, ltb, if◌then◌else◌, length, get_elem?, set, replicate,
  Run, returns, panics, ◌>>=◌, expect,
}
use torvyn.Common.Word.{u64, u64_max}

pub record Histogram : Type 0 where
  pub buckets : List ℕ
  pub sum : ℕ
  pub count : ℕ
  pub min : ℕ
  pub max : ℕ
  pub boundaries : List ℕ

unfoldable pub new : List ℕ → Histogram
new boundaries = record {
  buckets = replicate (length boundaries + 1) 0;
  sum = 0;
  count = 0;
  min = u64_max;
  max = 0;
  boundaries = boundaries;
}

-- What `binary_search` on a sorted slice returns: the index of the value, or the one where it belongs.
pub data Search : Type 0 where
  ok err : ℕ → Search

unfoldable pub binary_search : ℕ → List ℕ → ℕ → Search
binary_search i [] value = err i
binary_search i (boundary ∷ boundaries) value =
    let rest = binary_search (suc i) boundaries value in
    if boundary == value then ok i else if ltb value boundary then err i else rest

unfoldable pub bucket_idx : Search → ℕ
bucket_idx (ok i) = i
bucket_idx (err i) = i

unfoldable pub record_value : Histogram → ℕ → Run Histogram
unfolding binary_search bucket_idx
record_value h value =
    let idx = bucket_idx (binary_search 0 h.boundaries value) in
    expect (get_elem? h.buckets idx) >>= λ bucket. returns (record h {
      buckets = set h.buckets idx (u64 (bucket + 1));
      sum = u64 (h.sum + value);
      count = u64 (h.count + 1);
      min = if ltb value h.min then value else h.min;
      max = if ltb h.max value then value else h.max;
    })

unfoldable pub reset : Histogram → Histogram
reset h = record h {
  buckets = replicate (length h.buckets) 0;
  sum = 0;
  count = 0;
  min = u64_max;
  max = 0;
}
