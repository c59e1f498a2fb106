-- ===== src/Observability/Tests.antt =====
-- The theorems about spans and histograms at a ring of eight slots and at three boundaries.
use Prim.Native.Nat.{◌^◌}
use torvyn.Common.{ℕ, ◌-◌, ◌≡◌, List, [], ◌∷◌, arith, length, map, returns, any}
use torvyn.Common.Indices.{range}
use torvyn.Observability.SpanRing.{
  CompactSpanRecord, SpanRingBuffer, zeroed, is_error, new, drain, contains_error,
}
use torvyn.Observability.SpanRing.Window.{drop}
use torvyn.Observability.SpanRing.Recording.{push_all, push_all-drain}
use torvyn.Observability.Histogram
use torvyn.Observability.Histogram.{Histogram}
use torvyn.Observability.Histogram.Totals.{record_all, Tells, record_all-Tells}

abbrev span : ℕ → CompactSpanRecord
span n = record zeroed { span_id = n; element_sequence = n }

abbrev eleven : List CompactSpanRecord
eleven = map span (range 0 11)

push_all-drain_example :
    (ring ring' : SpanRingBuffer) × (push_all (new (2 ^ 3)) eleven ≡ returns ring)
    × (drain ring ≡ returns (drop (length eleven - 2 ^ 3) eleven, ring'))
    × (contains_error ring ≡ returns (any is_error (drop (length eleven - 2 ^ 3) eleven)))
push_all-drain_example = push_all-drain 3 eleven (omega arith)

abbrev values : List ℕ
values = 700 ∷ 100 ∷ 250 ∷ 101 ∷ []

record_all-Tells_example :
    (h : Histogram) × (record_all (Histogram.new (100 ∷ 250 ∷ 500 ∷ [])) values ≡ returns h)
    × Tells (100 ∷ 250 ∷ 500 ∷ []) values h
record_all-Tells_example =
    record_all-Tells (100 ∷ 250 ∷ 500 ∷ []) values (omega arith) (omega arith)
