-- ===== src/Resources/Payload/Access.antt =====
-- What the payload accesses of crates/torvyn-resources/src/buffer.rs read back.
use torvyn.Common.{
  ℕ, zero, suc, ◌+◌, ◌≤◌, ◌<◌, ◌≡◌, refl, ◌⊎◌, inl, inr, List, [], ◌∷◌, length, replicate, arith,
}
use torvyn.Resources.Payload.{
  Memory, copy_to, bytes_from, clear, read_payload, write_payload, zero_payload,
}

copy_to_below :
    (bytes : List ℕ) (start : ℕ) (memory : Memory) (a : ℕ)
    → a < start
    → copy_to bytes start memory a ≡ memory a
unfolding copy_to
copy_to_below [] start memory a h = refl
copy_to_below (byte ∷ bytes) start memory a h =
    ground (arith, copy_to_below bytes (start + 1) memory a (omega arith))

copy_to_above :
    (bytes : List ℕ) (start : ℕ) (memory : Memory) (a : ℕ)
    → start + length bytes ≤ a
    → copy_to bytes start memory a ≡ memory a
unfolding copy_to
copy_to_above [] start memory a h = refl
copy_to_above (byte ∷ bytes) start memory a h =
    ground (arith, copy_to_above bytes (start + 1) memory a (omega arith))

-- Two memories that agree from an address on read alike from there.
bytes_from_ext :
    (start n : ℕ) (memory memory' : Memory)
    → ((a : ℕ) → start ≤ a → memory a ≡ memory' a)
    → bytes_from start n memory ≡ bytes_from start n memory'
unfolding bytes_from
bytes_from_ext start zero memory memory' h = refl
bytes_from_ext start (suc n) memory memory' h = ground (
  arith,
  h start (omega arith),
  bytes_from_ext (start + 1) n memory memory' (λ a le. h a (omega arith)),
)

bytes_from-copy_to :
    (bytes : List ℕ) (start : ℕ) (memory : Memory)
    → bytes_from start (length bytes) (copy_to bytes start memory) ≡ bytes
unfolding bytes_from copy_to
bytes_from-copy_to [] start memory = refl
bytes_from-copy_to (byte ∷ bytes) start memory = ground (
  arith,
  bytes_from_ext (start + 1) (length bytes) (copy_to (byte ∷ bytes) start memory)
      (copy_to bytes (start + 1) memory) (λ a le. ground arith),
  bytes_from-copy_to bytes (start + 1) memory,
)

bytes_from-clear :
    (start n : ℕ) (memory : Memory) → bytes_from start n (clear start n memory) ≡ replicate n 0
unfolding bytes_from clear
bytes_from-clear start zero memory = refl
bytes_from-clear start (suc n) memory = ground (
  arith,
  bytes_from_ext (start + 1) n (clear start (suc n) memory) (clear (start + 1) n memory)
      (λ a le. ground arith),
  bytes_from-clear (start + 1) n memory,
)

-- A read of what a write covers gives the written bytes, the bytes outside it keep their values, and a
-- payload that has been zeroed reads as zeros.
pub read-write_payload :
    (memory : Memory) (ptr offset capacity : ℕ) (bytes : List ℕ)
    → (read_payload (write_payload memory ptr offset bytes) ptr offset (length bytes) ≡ bytes)
      × ((a : ℕ)
          → (a < ptr + 64 + offset) ⊎ (ptr + 64 + offset + length bytes ≤ a)
          → write_payload memory ptr offset bytes a ≡ memory a)
      × (read_payload (zero_payload memory ptr capacity) ptr 0 capacity ≡ replicate capacity 0)
unfolding read_payload write_payload zero_payload
read-write_payload memory ptr offset capacity bytes = (
  bytes_from-copy_to bytes (ptr + 64 + offset) memory,
  (λ a out. elim out [
    | inl below ↦ copy_to_below bytes (ptr + 64 + offset) memory a below
    | inr above ↦ copy_to_above bytes (ptr + 64 + offset) memory a above
  ]),
  ground (arith, bytes_from-clear (ptr + 64) capacity memory),
)
