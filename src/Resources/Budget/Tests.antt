-- ===== src/Resources/Budget/Tests.antt =====
-- The theorems about budgets at a registry of one component.
use torvyn.Common.{◌≡◌, refl, ◌⊎◌, none, some, [], ◌∷◌, arith}
use torvyn.Common.Map
use torvyn.Common.Map.{lookup-insert}
use torvyn.Resources.Handle.{ok}
use torvyn.Resources.Budget.{ComponentBudget, BudgetRegistry, try_reserve, current_usage}
use torvyn.Resources.Budget.Laws.{IsWithin, Reserves, try_reserve-Reserves}

abbrev budget : ComponentBudget
budget = record { max_owned_bytes = 1000; current_owned_bytes = 256 }

abbrev registry : BudgetRegistry
registry = record { budgets = (5, budget) ∷ []; default_max = 1000 }

registered : Map.lookup 5 registry.budgets ≡ some budget
unfolding Map.lookup
registered = refl

registry-IsWithin : IsWithin registry
unfolding Map.lookup
registry-IsWithin component b h = ground arith

try_reserve-Reserves_example :
    ((Map.lookup 5 registry.budgets ≡ none) × (try_reserve registry 5 512 ≡ ok registry))
    ⊎ ((b : ComponentBudget) × (Map.lookup 5 registry.budgets ≡ some b) × Reserves registry 5 512 b)
try_reserve-Reserves_example =
    try_reserve-Reserves registry 5 512 registry-IsWithin
      (unfold current_usage Map.lookup in omega arith)
