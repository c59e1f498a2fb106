-- ===== src/Reactor/Backpressure.antt =====
-- crates/torvyn-reactor/src/backpressure.rs. Instants are numbers, and `now` is what the clock says at
-- the call.
pub mod Hysteresis
use torvyn.Common.{ℕ, ◌-◌, Bool, true, false, not, ◌&&◌, Option, none, some, leb, if◌then◌else◌}

pub data BackpressureState : Type 0 where
  normal : BackpressureState
  active : (since : ℕ) → BackpressureState

unfoldable pub is_active : BackpressureState → Bool
is_active normal = false
is_active (active since) = true

unfoldable pub try_activate : ℕ → BackpressureState → BackpressureState × Bool
try_activate now normal = (active now, true)
try_activate now (active since) = (active since, false)

-- `elapsed` is zero where the clock went back.
unfoldable pub try_deactivate : ℕ → BackpressureState → BackpressureState × Option ℕ
try_deactivate now (active since) = (normal, some (now - since))
try_deactivate now normal = (normal, none)

unfoldable pub check_backpressure_transition :
    (queue_len queue_capacity low_watermark_depth : ℕ) → Bool → Option Bool
check_backpressure_transition queue_len queue_capacity low_watermark_depth currently_active =
    if not currently_active && leb queue_capacity queue_len
    then some true
    else (if currently_active && leb queue_len low_watermark_depth then some false else none)
