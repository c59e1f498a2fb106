-- ===== src/Resources/Budget.antt =====
-- crates/torvyn-resources/src/budget.rs: what each component may own. The registry's lock is held
-- over every access, so the compare-and-swap loop of `try_reserve` ends in its first successful round.
pub mod Laws
mod Tests
use torvyn.Common.{ℕ, ◌+◌, ◌-◌, Option, none, some, [], ltb, if◌then◌else◌}
use torvyn.Common.Word.{u64, wrapping_sub}
use torvyn.Common.Map
use torvyn.Common.Map.{Map}
use torvyn.Resources.Handle.{Result, ok, err, budget_exceeded}

abbrev pub default_max_owned_bytes : ℕ
default_max_owned_bytes = 67108864

pub record ComponentBudget : Type 0 where
  pub max_owned_bytes : ℕ  -- u64
  pub current_owned_bytes : ℕ  -- u64

unfoldable pub new_budget : ℕ → ComponentBudget
new_budget max = record { max_owned_bytes = max; current_owned_bytes = 0 }

-- `current + bytes` wraps in a build without overflow checks.
unfoldable pub reserve : ComponentBudget → ℕ → ℕ → Result ComponentBudget
reserve b bytes component =
    let current = b.current_owned_bytes in
    let new_total = u64 (current + bytes) in
    if ltb b.max_owned_bytes new_total
    then err (budget_exceeded component current bytes b.max_owned_bytes)
    else ok (record b { current_owned_bytes = new_total })

unfoldable pub give_back : ComponentBudget → ℕ → ComponentBudget
give_back b bytes = record b { current_owned_bytes = wrapping_sub b.current_owned_bytes bytes }

-- `saturating_sub`, which `-` on numbers is.
unfoldable pub remaining : ComponentBudget → ℕ
remaining b = b.max_owned_bytes - b.current_owned_bytes

pub record BudgetRegistry : Type 0 where
  pub budgets : Map ComponentBudget
  pub default_max : ℕ

unfoldable pub new : ℕ → BudgetRegistry
new default_max = record { budgets = []; default_max = default_max }

unfoldable pub register : BudgetRegistry → ℕ → Option ℕ → BudgetRegistry
unfolding new_budget
register r component max = record r {
  budgets =
      Map.insert component (new_budget (elim max [ none ↦ r.default_max | some m ↦ m ])) r.budgets;
}

unfoldable pub unregister : BudgetRegistry → ℕ → BudgetRegistry
unregister r component = record r { budgets = Map.remove component r.budgets }

unfoldable pub try_reserve : BudgetRegistry → ℕ → ℕ → Result BudgetRegistry
try_reserve r component bytes = elim (Map.lookup component r.budgets) [
  | none ↦ ok r
  | some b ↦ elim (reserve b bytes component) [
    | ok b' ↦ ok (record r { budgets = Map.insert component b' r.budgets })
    | err e ↦ err e
  ]
]

unfoldable pub release_bytes : BudgetRegistry → ℕ → ℕ → BudgetRegistry
release_bytes r component bytes = elim (Map.lookup component r.budgets) [
  | none ↦ r
  | some b ↦ record r { budgets = Map.insert component (give_back b bytes) r.budgets }
]

unfoldable pub current_usage : BudgetRegistry → ℕ → ℕ
current_usage r component = elim (Map.lookup component r.budgets) [
  | none ↦ 0
  | some b ↦ b.current_owned_bytes
]
