-- ===== src/Observability/SpanRing/Errors.antt =====
-- The search for a failed span in crates/torvyn-observability/src/tracer/ring_buffer.rs.
use Prim.Native.Nat.{bit_and}
use torvyn.Common.{
  ℕ, suc, ◌+◌, ◌%◌, ◌<◌, ◌≡◌, refl, subst, inl, inr, List, [], ◌∷◌, if◌then◌else◌, some, arith,
  length, get_elem?, returns, Bool-cases, any,
}
use torvyn.Observability.SpanRing.{
  CompactSpanRecord, SpanRingBuffer, is_error, has_wrapped, error_from, contains_error,
}
use torvyn.Observability.SpanRing.Window.{Shows}
use torvyn.Observability.SpanRing.Drain.{window, length-window, early_at, late_at}

error_from-target :
    (index : ℕ → ℕ) (slots target : List CompactSpanRecord) (i : ℕ)
    → ((j : ℕ) → j < length target → get_elem? slots (index (i + j)) ≡ get_elem? target j)
    → error_from index slots i (length target) ≡ returns (any is_error target)
unfolding error_from any
error_from-target index slots [] i h = refl
error_from-target index slots (span ∷ target) i h =
    let at : get_elem? slots (index i) ≡ some span =
      let e : i + 0 ≡ i = omega arith in
      subst (λ (n : ℕ). get_elem? slots (index n) ≡ some span) e (h 0 (omega arith)) in
    let rest = error_from-target index slots target (suc i) (λ j lt.
      let e : i + suc j ≡ suc i + j = omega arith in
      subst (λ (n : ℕ). get_elem? slots (index n) ≡ get_elem? target j) e
        (h (suc j) (omega (arith, lt)))) in
    elim (Bool-cases (is_error span)) [
      | inl bad ↦ rw (at, bad) refl
      | inr good ↦ rw (at, good) rest
    ]

-- `contains_error` tells whether a span that the ring still shows failed.
pub contains_error_lem :
    (ring : SpanRingBuffer) (spans : List CompactSpanRecord)
    → Shows ring spans
    → contains_error ring ≡ returns (any is_error (window ring spans))
unfolding contains_error
contains_error_lem ring spans s =
    let index = λ (i : ℕ).
      if has_wrapped ring then (bit_and ring.write_pos ring.mask + i) % ring.capacity else i in
    let at : (j : ℕ)
        → j < length (window ring spans)
        → get_elem? ring.slots (index (0 + j)) ≡ get_elem? (window ring spans) j =
      λ j lt. elim (Bool-cases (has_wrapped ring)) [
        | inl wrapped ↦ rw wrapped (late_at ring spans s (ground (arith, wrapped, s.position)) j lt)
        | inr fresh ↦ rw fresh (early_at ring spans s (ground (arith, fresh, s.position)) j lt)
      ] in
    subst (λ (n : ℕ). error_from index ring.slots 0 n ≡ returns (any is_error (window ring spans)))
      (length-window ring spans s) (error_from-target index ring.slots (window ring spans) 0 at)
