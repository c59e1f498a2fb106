-- ===== src/Observability/SpanRing/Recording.antt =====
-- A run of crates/torvyn-observability/src/tracer/ring_buffer.rs from a new ring on.
use Prim.Native.Nat.{◌^◌}
use mathlib.Core.List.{append_assoc, append-nil}
use torvyn.Common.{
  ℕ, ◌+◌, ◌-◌, ◌<◌, ◌≡◌, refl, sym, subst, ◌∙◌, List, [], ◌∷◌, ◌++◌, arith, length, length-append,
  Run, returns, ◌>>=◌, any,
}
use torvyn.Observability.SpanRing.{
  CompactSpanRecord, SpanRingBuffer, new, push, drain, is_error, contains_error,
}
use torvyn.Observability.SpanRing.Errors.{contains_error_lem}
use torvyn.Observability.SpanRing.Window.{Shows, new-Shows, push-Shows, drop}
use torvyn.Observability.SpanRing.Drain.{drain-Shows}

-- The spans of a flow are pushed one after another.
unfoldable pub push_all : SpanRingBuffer → List CompactSpanRecord → Run SpanRingBuffer
push_all ring [] = returns ring
push_all ring (span ∷ spans) = push ring span >>= λ next. push_all next spans

push_all-Shows :
    (ring : SpanRingBuffer) (before spans : List CompactSpanRecord)
    → Shows ring before
    → length before + length spans < 18446744073709551616
    → (ring' : SpanRingBuffer) × (push_all ring spans ≡ returns ring')
      × Shows ring' (before ++ spans)
      × (ring'.capacity ≡ ring.capacity)
unfolding push_all
push_all-Shows ring before [] s h =
    (ring, refl, subst (Shows ring) (sym (append-nil before)) s, refl)
push_all-Shows ring before (span ∷ spans) s h =
    let (next, run, s', same) = push-Shows ring before span s (omega (arith, h)) in
    let longer = length-append before (span ∷ []) in
    let (ring', run', s'', same') =
      push_all-Shows next (before ++ span ∷ []) spans s' (omega (arith, h, longer)) in
    (
      ring',
      rw run run',
      subst (Shows ring') (append_assoc before (span ∷ []) spans) s'',
      same' ∙ same,
    )

-- Of the spans pushed onto a new ring of a power of two slots, fewer than 2^64, `drain` returns the last
-- ones, as many as there are slots, the oldest first, and before it `contains_error` tells whether one of
-- these failed.
pub push_all-drain :
    (bits : ℕ) (spans : List CompactSpanRecord)
    → length spans < 18446744073709551616
    → (ring ring' : SpanRingBuffer) × (push_all (new (2 ^ bits)) spans ≡ returns ring)
      × (drain ring ≡ returns (drop (length spans - 2 ^ bits) spans, ring'))
      × (contains_error ring ≡ returns (any is_error (drop (length spans - 2 ^ bits) spans)))
unfolding new
push_all-drain bits spans h =
    let (ring, run, s, same) =
      push_all-Shows (new (2 ^ bits)) [] spans (new-Shows bits) (omega (arith, h)) in
    let (ring', out, _) = drain-Shows ring spans s in
    (
      ring,
      ring',
      run,
      subst (λ (c : ℕ). drain ring ≡ returns (drop (length spans - c) spans, ring')) same out,
      subst
          (λ (c : ℕ). contains_error ring ≡ returns (any is_error (drop (length spans - c) spans)))
          same (contains_error_lem ring spans s),
    )
