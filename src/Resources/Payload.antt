-- ===== src/Resources/Payload.antt =====
-- crates/torvyn-resources/src/buffer.rs: the payload behind a buffer's header, as bytes of a memory.
use torvyn.Common.{ℕ, zero, suc, ◌+◌, List, [], ◌∷◌, ◌==◌, if◌then◌else◌}
pub mod Access

abbrev pub max_buffer_size : ℕ
max_buffer_size = 16777216

abbrev pub header_size : ℕ
header_size = 64

-- What each address holds.
abbrev pub Memory : Type 0
Memory = ℕ → ℕ

-- `copy_nonoverlapping` to an address.
unfoldable pub copy_to : List ℕ → ℕ → Memory → Memory
copy_to [] start memory = memory
copy_to (byte ∷ bytes) start memory =
    λ a. if a == start then byte else copy_to bytes (start + 1) memory a

-- `from_raw_parts`.
unfoldable pub bytes_from : ℕ → ℕ → Memory → List ℕ
bytes_from start zero memory = []
bytes_from start (suc n) memory = memory start ∷ bytes_from (start + 1) n memory

-- `write_bytes` of zeros.
unfoldable pub clear : ℕ → ℕ → Memory → Memory
clear start zero memory = memory
clear start (suc n) memory = λ a. if a == start then 0 else clear (start + 1) n memory a

unfoldable pub read_payload : Memory → ℕ → ℕ → ℕ → List ℕ
unfolding bytes_from
read_payload memory ptr offset len = bytes_from (ptr + header_size + offset) len memory

unfoldable pub write_payload : Memory → ℕ → ℕ → List ℕ → Memory
unfolding copy_to
write_payload memory ptr offset bytes = copy_to bytes (ptr + header_size + offset) memory

unfoldable pub zero_payload : Memory → ℕ → ℕ → Memory
unfolding clear
zero_payload memory ptr capacity = clear (ptr + header_size) capacity memory
