-- ===== src/Observability/SpanRing/Drain.antt =====
-- `drain` of crates/torvyn-observability/src/tracer/ring_buffer.rs reads the window of a ring.
use Prim.Native.Nat.{bit_and}
use native.Mathlib.Nat.{mod-eq_of_lt, mod-add-mod, add-mod_right}
use torvyn.Common.{
  ℕ, suc, ◌+◌, ◌-◌, ◌%◌, ◌≤◌, ◌<◌, ◌≡◌, refl, sym, ap, subst, ◌∙◌, inl, inr, min, List, [], ◌∷◌,
  leb, some, arith, length, get_elem?, Run, returns, ◌>>=◌, Bool-cases,
}
use torvyn.Observability.SpanRing.{CompactSpanRecord, SpanRingBuffer, read_slots, drain}
use torvyn.Observability.SpanRing.Window.{Shows, drop, length-drop, get_elem?-drop, mask-mod}

read_slots-target :
    (index : ℕ → ℕ) (slots target : List CompactSpanRecord) (i : ℕ)
    → ((j : ℕ) → j < length target → get_elem? slots (index (i + j)) ≡ get_elem? target j)
    → read_slots index slots i (length target) ≡ returns target
unfolding read_slots
read_slots-target index slots [] i h = refl
read_slots-target index slots (span ∷ target) i h =
    let at : get_elem? slots (index i) ≡ some span =
      let e : i + 0 ≡ i = omega arith in
      subst (λ (n : ℕ). get_elem? slots (index n) ≡ some span) e (h 0 (omega arith)) in
    let rest = read_slots-target index slots target (suc i) (λ j lt.
      let e : i + suc j ≡ suc i + j = omega arith in
      subst (λ (n : ℕ). get_elem? slots (index n) ≡ get_elem? target j) e
        (h (suc j) (omega (arith, lt)))) in
    rw (at, rest) refl

-- What the ring still shows: the last spans, as many as it has slots, the oldest first.
abbrev pub window : SpanRingBuffer → List CompactSpanRecord → List CompactSpanRecord
window ring spans = drop (length spans - ring.capacity) spans

module _ (ring : SpanRingBuffer) (spans : List CompactSpanRecord) (s : Shows ring spans) where
  window_at :
      (j : ℕ)
      → j < length (window ring spans)
      → get_elem? ring.slots ((length spans - ring.capacity + j) % ring.capacity)
        ≡ get_elem? (window ring spans) j
  window_at j lt =
      let gone = length spans - ring.capacity in
      let l = length-drop gone spans in
      s.shown (gone + j) (omega (arith, lt, l)) (omega arith) ∙ sym (get_elem?-drop gone j spans)

  drained : SpanRingBuffer
  drained = record ring { write_pos = 0 }

  drained-Shows : Shows drained []
  unfolding drained
  drained-Shows = record {
    bits = s.bits;
    power = s.power;
    masked = s.masked;
    size = s.size;
    position = refl;
    shown = λ j lt near. absurd (omega arith);
  }

  pub length-window : length (window ring spans) ≡ min ring.write_pos ring.capacity
  length-window = omega (arith, length-drop (length spans - ring.capacity) spans, s.position)

  pub early_at :
      length spans ≤ ring.capacity
      → (j : ℕ) → j < length (window ring spans)
      → get_elem? ring.slots (0 + j) ≡ get_elem? (window ring spans) j
  early_at few j lt =
      let gone = length spans - ring.capacity in
      let inside : j < ring.capacity = omega (arith, lt, length-window) in
      let e : (gone + j) % ring.capacity ≡ 0 + j =
        subst (λ (n : ℕ). n % ring.capacity ≡ 0 + j) (omega (arith, few))
          (mod-eq_of_lt inside ∙ omega arith) in
      subst (λ (n : ℕ). get_elem? ring.slots n ≡ get_elem? (window ring spans) j) e (window_at j lt)

  -- The oldest span stands where the next one will go.
  around :
      (j : ℕ)
      → ring.capacity ≤ length spans
      → (length spans - ring.capacity + j) % ring.capacity
        ≡ (bit_and ring.write_pos ring.mask + (0 + j)) % ring.capacity
  around j many =
      let c = ring.capacity in
      let x = length spans - c + j in
      let further : x + c ≡ length spans + j = omega (arith, many) in
      let slot : length spans % c ≡ bit_and ring.write_pos ring.mask =
        ap (λ (n : ℕ). n % c) (sym s.position) ∙ sym (mask-mod ring spans s ring.write_pos) in
      let e : j ≡ 0 + j = omega arith in
      sym (add-mod_right x c)
      ∙ ap (λ (n : ℕ). n % c) further
      ∙ sym (mod-add-mod (length spans) c j)
      ∙ ap (λ (n : ℕ). (n + j) % c) slot
      ∙ ap (λ (n : ℕ). (bit_and ring.write_pos ring.mask + n) % c) e

  pub late_at :
      ring.capacity ≤ length spans
      → (j : ℕ) → j < length (window ring spans)
      → get_elem? ring.slots ((bit_and ring.write_pos ring.mask + (0 + j)) % ring.capacity)
        ≡ get_elem? (window ring spans) j
  late_at many j lt =
      subst (λ (n : ℕ). get_elem? ring.slots n ≡ get_elem? (window ring spans) j) (around j many)
        (window_at j lt)

-- `drain` returns the last spans pushed, as many as the ring has slots, the oldest first, and leaves the
-- ring empty.
pub drain-Shows :
    (ring : SpanRingBuffer) (spans : List CompactSpanRecord)
    → Shows ring spans
    → (ring' : SpanRingBuffer) × (drain ring ≡ returns (window ring spans, ring')) × Shows ring' []
unfolding drain drained
drain-Shows ring spans s = (
  drained ring spans s,
  elim (Bool-cases (leb ring.write_pos ring.capacity)) [
    | inl few ↦
        let at = early_at ring spans s (ground (arith, few, s.position)) in
        let read = read_slots-target (λ i. i) ring.slots (window ring spans) 0 at in
        rw (few, ← length-window ring spans s, read) refl
    | inr many ↦
        let at = late_at ring spans s (ground (arith, many, s.position)) in
        let read =
          read_slots-target (λ i. (bit_and ring.write_pos ring.mask + i) % ring.capacity) ring.slots
            (window ring spans) 0 at in
        let full : length (window ring spans) ≡ ring.capacity =
          length-window ring spans s ∙ ground (arith, many, s.position) in
        rw many (
          ap
            (λ (r : Run (List CompactSpanRecord)).
              r >>= λ result. returns (result, drained ring spans s))
            (subst
              (λ (n : ℕ).
                read_slots (λ i. (bit_and ring.write_pos ring.mask + i) % ring.capacity) ring.slots
                  0 n
                ≡ returns (window ring spans))
              full read))
  ],
  drained-Shows ring spans s,
)
