-- ===== src/Reactor/Backpressure/Hysteresis.antt =====
-- How crates/torvyn-reactor/src/backpressure.rs moves between its two states.
use torvyn.Common.{ℕ, ◌-◌, ◌<◌, ◌≤◌, ◌≡◌, refl, ◌↔◌, Bool, true, false, not, none, some, arith}
use torvyn.Reactor.Backpressure.{
  BackpressureState, normal, active, is_active, try_activate, try_deactivate,
  check_backpressure_transition,
}

-- With the low watermark below the capacity, backpressure is to start exactly when it is off and the
-- queue is full, and to end exactly when it is on and the queue is at the watermark or below; a change
-- is never undone at the depth that caused it.
pub transition_hysteresis :
    (len capacity low : ℕ) (on : Bool)
    → low < capacity
    → ((check_backpressure_transition len capacity low on ≡ some true)
        ↔ ((on ≡ false) × (capacity ≤ len)))
      × ((check_backpressure_transition len capacity low on ≡ some false)
          ↔ ((on ≡ true) × (len ≤ low)))
      × ((to : Bool)
          → check_backpressure_transition len capacity low on ≡ some to
          → (to ≡ not on) × (check_backpressure_transition len capacity low to ≡ none))
unfolding check_backpressure_transition
transition_hysteresis len capacity low true h = ground arith
transition_hysteresis len capacity low false h = ground arith

-- A spell of backpressure that starts at one time and ends at a later one is reported once, with its
-- length; while it lasts a second start changes nothing, and after it a second end reports nothing.
pub spell_reported :
    (s : BackpressureState) (start again stop : ℕ)
    → is_active s ≡ false
    → let on = (try_activate start s).0 in
      ((try_activate start s).1 ≡ true)
      × (try_activate again on ≡ (on, false))
      × (try_deactivate stop on ≡ (normal, some (stop - start)))
      × (try_deactivate stop (try_deactivate stop on).0 ≡ (normal, none))
unfolding is_active try_activate try_deactivate
spell_reported normal start again stop off = (refl, refl, refl, refl)
spell_reported (active since) start again stop off = ground arith
