-- ===== src/Observability/SpanRing/Window.antt =====
-- The ring of crates/torvyn-observability/src/tracer/ring_buffer.rs holds the last spans.
use Prim.Native.Nat.{bit_and, ◌^◌}
use native.Mathlib.Nat.{mod-lt, mod-add-mod}
use torvyn.Common.{
  ℕ, zero, suc, ◌+◌, ◌-◌, ◌%◌, ◌≤◌, ◌<◌, ◌≡◌, ◌≢◌, refl, sym, ap, subst, ◌∙◌, inl, inr, List, [],
  ◌∷◌, ◌++◌, arith, length, length-append, length-set, length-replicate, get_elem?, set,
  get_elem?-set_self, get_elem?-set_ne, get_elem?-append_left, get_elem?-append_middle,
  get_elem?-lt, returns, index_cases,
}
use torvyn.Common.Word.{u64}
use torvyn.Common.Masks.{bit_and-ones, two_pow_pos}
use torvyn.Reactor.Queue.Ring.{position_injective, position_start}
use torvyn.Observability.SpanRing.{CompactSpanRecord, SpanRingBuffer, zeroed, new, push}

-- A list without its first elements.
abbrev pub drop : {A : Type 0} → ℕ → List A → List A
drop zero xs = xs
drop (suc n) [] = []
drop (suc n) (x ∷ xs) = drop n xs

pub get_elem?-drop :
    {A : Type 0} (n j : ℕ) (xs : List A) → get_elem? (drop n xs) j ≡ get_elem? xs (n + j)
get_elem?-drop zero j xs = let e : j ≡ 0 + j = omega arith in ap (get_elem? xs) e
get_elem?-drop (suc n) j [] = refl
get_elem?-drop (suc n) j (x ∷ xs) =
    let e : suc (n + j) ≡ suc n + j = omega arith in
    get_elem?-drop n j xs ∙ ap (get_elem? (x ∷ xs)) e

pub length-drop : {A : Type 0} (n : ℕ) (xs : List A) → length (drop n xs) ≡ length xs - n
length-drop zero xs = omega arith
length-drop (suc n) [] = omega arith
length-drop (suc n) (x ∷ xs) = omega (arith, length-drop n xs)

-- The ring of a power of two slots after some spans were pushed: the last of them stand in the slots of
-- their numbers.
pub record Shows (ring : SpanRingBuffer) (spans : List CompactSpanRecord) : Type 0 where
  pub bits : ℕ
  pub power : ring.capacity ≡ 2 ^ bits
  pub masked : ring.mask ≡ ring.capacity - 1
  pub size : length ring.slots ≡ ring.capacity
  pub position : ring.write_pos ≡ length spans
  pub shown :
      (j : ℕ)
      → j < length spans
      → length spans ≤ j + ring.capacity
      → get_elem? ring.slots (j % ring.capacity) ≡ get_elem? spans j

module _ (ring : SpanRingBuffer) (spans : List CompactSpanRecord) (s : Shows ring spans) where
  capacity_pos : 0 < ring.capacity
  capacity_pos = omega (arith, s.power, two_pow_pos s.bits)

  pub mask-mod : (a : ℕ) → bit_and a ring.mask ≡ a % ring.capacity
  mask-mod a =
      ap (bit_and a) (s.masked ∙ ap (λ (c : ℕ). c - 1) s.power)
      ∙ bit_and-ones a s.bits
      ∙ ap (λ (c : ℕ). a % c) (sym s.power)

  -- Two numbers less than a round apart have different slots.
  apart : (i j : ℕ) → i < j → j < i + ring.capacity → i % ring.capacity ≢ j % ring.capacity
  apart i j lt near same =
      let c = ring.capacity in
      let h = i % c in
      let in_ring : h < c = mod-lt i capacity_pos in
      let e : i + (j - i) ≡ j = omega (arith, lt) in
      let around : (h + (j - i)) % c ≡ j % c = mod-add-mod i c (j - i) ∙ ap (λ (n : ℕ). n % c) e in
      let zero_steps =
        position_injective h c in_ring 0 (j - i) capacity_pos (omega (arith, near, lt))
          (position_start h c in_ring ∙ same ∙ sym around) in
      omega (arith, zero_steps, lt)

pub new-Shows : (bits : ℕ) → Shows (new (2 ^ bits)) []
unfolding new
new-Shows bits = record {
  bits = bits;
  power = refl;
  masked = refl;
  size = length-replicate (2 ^ bits) zeroed;
  position = refl;
  shown = λ j lt near. absurd (omega arith);
}

-- A span that is pushed is shown after the others; the oldest one goes where the ring is full.
pub push-Shows :
    (ring : SpanRingBuffer) (spans : List CompactSpanRecord) (span : CompactSpanRecord)
    → Shows ring spans
    → length spans < 18446744073709551615
    → (ring' : SpanRingBuffer) × (push ring span ≡ returns ring')
      × Shows ring' (spans ++ span ∷ [])
      × (ring'.capacity ≡ ring.capacity)
unfolding push
push-Shows ring spans span s h =
    let c = ring.capacity in
    let idx = length spans % c in
    let slot : bit_and ring.write_pos ring.mask ≡ idx =
      mask-mod ring spans s ring.write_pos ∙ ap (λ (n : ℕ). n % c) s.position in
    let inside : idx < length ring.slots =
      subst (λ (n : ℕ). idx < n) (sym s.size) (mod-lt (length spans) (capacity_pos ring spans s)) in
    let (old, at) = get_elem?-lt ring.slots idx inside in
    let longer = length-append spans (span ∷ []) in
    let ring' : SpanRingBuffer = record ring {
      slots = set ring.slots idx span;
      write_pos = u64 (ring.write_pos + 1);
    } in
    (
      ring',
      rw (slot, at) refl,
      record {
        bits = s.bits;
        power = s.power;
        masked = s.masked;
        size = length-set ring.slots idx span ∙ s.size;
        position = omega (arith, s.position, longer, h);
        shown = λ j lt near. elim (index_cases j (length spans)) [
          | inl last ↦
              subst
                (λ (n : ℕ).
                  get_elem? (set ring.slots idx span) (n % c) ≡ get_elem? (spans ++ span ∷ []) n)
                (sym last)
                (get_elem?-set_self ring.slots idx span inside
                  ∙ sym (get_elem?-append_middle spans [] span))
          | inr before ↦
              let lt' : j < length spans = omega (arith, lt, before, longer) in
              let near' : length spans < j + c = omega (arith, near, longer) in
              get_elem?-set_ne ring.slots idx (j % c) span
                (λ e. apart ring spans s j (length spans) lt' near' (sym e))
              ∙ s.shown j lt' (omega (arith, near'))
              ∙ sym (get_elem?-append_left spans (span ∷ []) j lt')
        ];
      },
      refl,
    )
