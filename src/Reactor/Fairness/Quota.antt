-- ===== src/Reactor/Fairness/Quota.antt =====
-- How long crates/torvyn-reactor/src/fairness.rs lets the task of a flow run.
use torvyn.Common.{ℕ, zero, suc, ◌+◌, ◌-◌, ◌≤◌, ◌≡◌, refl, ◌∙◌, ◌↔◌, ◌⊎◌, true, min, arith}
use torvyn.Common.Word.{u64_max}
use torvyn.Reactor.Fairness.{
  YieldController, max_consecutive_elements, new, record_element, should_yield, reset,
}

-- `n` elements in a row.
abbrev pub elements : ℕ → YieldController → YieldController
elements zero y = y
elements (suc n) y = elements n (record_element y)

elements-count :
    (n : ℕ) (y : YieldController)
    → y.elements_since_yield + n ≤ u64_max
    → elements n y ≡ record y { elements_since_yield = y.elements_since_yield + n }
unfolding record_element
elements-count zero y h = ground arith
elements-count (suc n) y h =
    ground
      (arith, elements-count n (record y { elements_since_yield = y.elements_since_yield + 1 }))

elements-only_count :
    (n : ℕ) (y : YieldController)
    → elements n y ≡ record y { elements_since_yield = (elements n y).elements_since_yield }
unfolding record_element
elements-only_count zero y = refl
elements-only_count (suc n) y = elements-only_count n (record_element y)

-- A reset forgets the elements before it.
elements-reset :
    (m n began : ℕ) (y : YieldController)
    → n ≤ u64_max
    → elements n (reset began (elements m y))
      ≡ record y { elements_since_yield = n; last_yield_at = began }
unfolding reset
elements-reset m n began y fit = rw (elements-only_count m y) (
    elements-count n (record y { elements_since_yield = 0; last_yield_at = began }) (omega arith)
    ∙ ground arith)

-- After a reset, however many elements came before it, the task is to yield exactly when its quota of elements is
-- used up, which is at most the global maximum, or its time is.
pub should_yield_iff :
    (quota quantum start began now n : ℕ)
    → n ≤ u64_max
    → (m : ℕ)
    → (should_yield now (elements n (reset began (elements m (new quota quantum start)))) ≡ true)
      ↔ ((min quota max_consecutive_elements ≤ n) ⊎ (quantum ≤ now - began))
unfolding should_yield reset new
should_yield_iff quota quantum start began now n fit m =
    rw (elements-reset m n began (new quota quantum start) fit, should_yield) (ground arith)
