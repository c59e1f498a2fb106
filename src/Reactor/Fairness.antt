-- ===== src/Reactor/Fairness.antt =====
-- crates/torvyn-reactor/src/fairness.rs: when the task of a flow yields. Instants and durations are
-- numbers, and `now` is what the clock says at the call.
pub mod Quota
use torvyn.Common.{ℕ, ◌+◌, ◌-◌, min, Bool, ◌||◌, leb}
use torvyn.Common.Word.{u64}

pub data FlowPriority : Type 0 where
  background low normal high critical : FlowPriority

unfoldable pub elements_per_yield : FlowPriority → ℕ
elements_per_yield critical = 128
elements_per_yield high = 64
elements_per_yield normal = 32
elements_per_yield low = 16
elements_per_yield background = 8

abbrev pub max_consecutive_elements : ℕ
max_consecutive_elements = 256

pub record YieldController : Type 0 where
  pub elements_since_yield : ℕ  -- u64
  pub last_yield_at : ℕ
  pub quota : ℕ  -- u64
  pub time_quantum : ℕ

unfoldable pub new : (elements quantum now : ℕ) → YieldController
new elements quantum now = record {
  elements_since_yield = 0;
  last_yield_at = now;
  quota = min elements max_consecutive_elements;
  time_quantum = quantum;
}

unfoldable pub record_element : YieldController → YieldController
record_element y = record y { elements_since_yield = u64 (y.elements_since_yield + 1) }

unfoldable pub should_yield : ℕ → YieldController → Bool
should_yield now y =
    leb y.quota y.elements_since_yield || leb y.time_quantum (now - y.last_yield_at)

unfoldable pub reset : ℕ → YieldController → YieldController
reset now y = record y { elements_since_yield = 0; last_yield_at = now }
