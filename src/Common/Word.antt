-- ===== src/Common/Word.antt =====
-- Unsigned machine integers as numbers with their wrap-around written out.
use torvyn.Common.Tests.{leb, if◌then◌else◌}
use Prim.Native.Nat.{ℕ, ◌+◌, ◌-◌, ◌%◌}

abbrev pub u32_max : ℕ
u32_max = 4294967295

abbrev pub u64_max : ℕ
u64_max = 18446744073709551615

-- `wrapping_add` on `u32`, and `+` on `u32` in a build without overflow checks.
abbrev pub u32 : ℕ → ℕ
u32 n = n % 4294967296

abbrev pub u64 : ℕ → ℕ
u64 n = n % 18446744073709551616

-- `a.saturating_add(b)` on `u64`.
abbrev pub saturating_add : ℕ → ℕ → ℕ
saturating_add a b = if leb (a + b) u64_max then a + b else u64_max

-- `fetch_sub` on `AtomicU64` wraps.
abbrev pub wrapping_sub : ℕ → ℕ → ℕ
wrapping_sub a b = (a + 18446744073709551616 - b) % 18446744073709551616

-- `fetch_sub` on `AtomicU32`.
abbrev pub wrapping_sub_u32 : ℕ → ℕ → ℕ
wrapping_sub_u32 a b = (a + 4294967296 - b) % 4294967296
