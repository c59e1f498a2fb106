-- ===== src/Observability/SpanRing.antt =====
-- crates/torvyn-observability/src/tracer/ring_buffer.rs: the last spans of a flow. An index out of
-- bounds is a panic, and the write position wraps as a `u64`. A build without debug assertions:
-- `new` tests nothing.
pub mod Drain
pub mod Errors
pub mod Recording
pub mod Window
use Prim.Native.Nat.{bit_and}
use torvyn.Common.{
  ℕ, zero, suc, ◌+◌, ◌-◌, ◌%◌, min, Bool, true, false, List, [], ◌∷◌, ◌==◌, leb, if◌then◌else◌,
  length, get_elem?, set, replicate, Run, returns, panics, ◌>>=◌, expect,
}
use torvyn.Common.Word.{u64}

pub record CompactSpanRecord : Type 0 where
  pub span_id : ℕ
  pub parent_span_id : ℕ
  pub component_id : ℕ
  pub start_ns : ℕ
  pub end_ns : ℕ
  pub status_code : ℕ
  pub element_sequence : ℕ

abbrev pub zeroed : CompactSpanRecord
zeroed = record {
  span_id = 0;
  parent_span_id = 0;
  component_id = 0;
  start_ns = 0;
  end_ns = 0;
  status_code = 0;
  element_sequence = 0;
}

unfoldable pub is_error : CompactSpanRecord → Bool
is_error span = span.status_code == 1

pub record SpanRingBuffer : Type 0 where
  pub slots : List CompactSpanRecord
  pub write_pos : ℕ
  pub mask : ℕ
  pub capacity : ℕ

unfoldable pub new : ℕ → SpanRingBuffer
new capacity = record {
  slots = replicate capacity zeroed;
  write_pos = 0;
  mask = capacity - 1;
  capacity = capacity;
}

-- `slots[idx] = record`, and the position after it.
unfoldable pub push : SpanRingBuffer → CompactSpanRecord → Run SpanRingBuffer
push ring span =
    let idx = bit_and ring.write_pos ring.mask in
    expect (get_elem? ring.slots idx) >>= λ _.
    returns (record ring { slots = set ring.slots idx span; write_pos = u64 (ring.write_pos + 1) })

-- The loop of `drain` from a number on, with the index that it reads for each number.
unfoldable pub read_slots : (ℕ → ℕ) → List CompactSpanRecord → ℕ → ℕ → Run (List CompactSpanRecord)
read_slots index slots i zero = returns []
read_slots index slots i (suc rounds) = expect (get_elem? slots (index i)) >>= λ span.
    read_slots index slots (suc i) rounds >>= λ rest. returns (span ∷ rest)

unfoldable pub drain : SpanRingBuffer → Run (List CompactSpanRecord × SpanRingBuffer)
unfolding read_slots
drain ring =
    let total = min ring.write_pos ring.capacity in
    let start = bit_and ring.write_pos ring.mask in
    (if leb ring.write_pos ring.capacity
      then read_slots (λ i. i) ring.slots 0 total
      else read_slots (λ i. (start + i) % ring.capacity) ring.slots 0 ring.capacity)
    >>= λ result. returns (result, record ring { write_pos = 0 })

unfoldable pub len : SpanRingBuffer → ℕ
len ring = min ring.write_pos ring.capacity

unfoldable pub has_wrapped : SpanRingBuffer → Bool
has_wrapped ring = leb ring.capacity ring.write_pos

-- The loop of `contains_error` from a number on.
unfoldable pub error_from : (ℕ → ℕ) → List CompactSpanRecord → ℕ → ℕ → Run Bool
unfolding is_error
error_from index slots i zero = returns false
error_from index slots i (suc rounds) = expect (get_elem? slots (index i)) >>= λ span.
    let rest = error_from index slots (suc i) rounds in if is_error span then returns true else rest

unfoldable pub contains_error : SpanRingBuffer → Run Bool
unfolding len has_wrapped error_from
contains_error ring =
    error_from
      (λ i. if has_wrapped ring then (bit_and ring.write_pos ring.mask + i) % ring.capacity else i)
      ring.slots 0 (len ring)
