-- ===== src/Resources/Budget/Laws.antt =====
-- What the budgets of crates/torvyn-resources/src/budget.rs allow and count.
use torvyn.Common.{
  ℕ, ◌+◌, ◌-◌, ◌≤◌, ◌<◌, ◌≡◌, refl, ◌∙◌, ◌⊎◌, inl, inr, none, some, arith, if◌then◌else◌, ◌==◌,
  Option-cases,
}
use native.Mathlib.Decide.{dec_le}
use torvyn.Common.Word.{u64_max}
use torvyn.Common.Map
use torvyn.Common.Map.{lookup-insert}
use torvyn.Resources.Handle.{ok, err, budget_exceeded}
use torvyn.Resources.Budget.{
  ComponentBudget, BudgetRegistry, reserve, give_back, remaining, try_reserve, release_bytes,
  current_usage,
}

-- No component holds more than its budget, and a budget fits 64 bits.
abbrev pub IsWithin : BudgetRegistry → Type 0
IsWithin r =
    (component : ℕ) (b : ComponentBudget)
    → Map.lookup component r.budgets ≡ some b
    → (b.current_owned_bytes ≤ b.max_owned_bytes) × (b.max_owned_bytes ≤ u64_max)

abbrev IsOk : ComponentBudget → Type 0
IsOk b = (b.current_owned_bytes ≤ b.max_owned_bytes) × (b.max_owned_bytes ≤ u64_max)

IsWithin-insert :
    (r : BudgetRegistry) (component : ℕ) (b : ComponentBudget)
    → IsWithin r
    → IsOk b
    → IsWithin (record r { budgets = Map.insert component b r.budgets })
IsWithin-insert r component b v k j c h =
    ground (arith, lookup-insert component j b r.budgets, v j c)

pub reserve_fits :
    (b : ComponentBudget) (bytes component : ℕ)
    → b.current_owned_bytes + bytes ≤ b.max_owned_bytes
    → b.max_owned_bytes ≤ u64_max
    → reserve b bytes component
      ≡ ok (record b { current_owned_bytes = b.current_owned_bytes + bytes })
unfolding reserve
reserve_fits b bytes component h m = ground arith

pub reserve_over :
    (b : ComponentBudget) (bytes component : ℕ)
    → b.max_owned_bytes < b.current_owned_bytes + bytes
    → b.current_owned_bytes + bytes ≤ u64_max
    → reserve b bytes component
      ≡ err (budget_exceeded component b.current_owned_bytes bytes b.max_owned_bytes)
unfolding reserve
reserve_over b bytes component h m = ground arith

pub give_back_exact :
    (b : ComponentBudget) (bytes : ℕ)
    → bytes ≤ b.current_owned_bytes
    → b.current_owned_bytes ≤ u64_max
    → give_back b bytes ≡ record b { current_owned_bytes = b.current_owned_bytes - bytes }
unfolding give_back
give_back_exact b bytes h m = ground arith

usage_of :
    (r : BudgetRegistry) (component : ℕ) (b : ComponentBudget)
    → Map.lookup component r.budgets ≡ some b
    → current_usage r component ≡ b.current_owned_bytes
unfolding current_usage
usage_of r component b h = rw (h, current_usage) refl

usage-insert :
    (r : BudgetRegistry) (component other : ℕ) (b : ComponentBudget)
    → current_usage (record r { budgets = Map.insert component b r.budgets }) other
      ≡ (if component == other then b.current_owned_bytes else current_usage r other)
unfolding current_usage
usage-insert r component other b = ground (arith, lookup-insert component other b r.budgets)

-- What `try_reserve` promises of a registered component: it succeeds exactly when the bytes fit the
-- budget, and then counts them for this component alone.
abbrev pub Reserves : BudgetRegistry → ℕ → ℕ → ComponentBudget → Type 0
Reserves r component bytes b =
    ((b.current_owned_bytes + bytes ≤ b.max_owned_bytes)
      × ((r' : BudgetRegistry) × (try_reserve r component bytes ≡ ok r')
          × IsWithin r'
          × ((other : ℕ)
              → current_usage r' other ≡ (
                  if component == other
                  then current_usage r other + bytes
                  else current_usage r other))))
    ⊎ ((b.max_owned_bytes < b.current_owned_bytes + bytes)
        × (try_reserve r component bytes
            ≡ err (budget_exceeded component b.current_owned_bytes bytes b.max_owned_bytes)))

-- As long as no count leaves 64 bits, `try_reserve` reserves for a registered component or fails as
-- `Reserves` says; an unregistered component is let through with nothing counted.
pub try_reserve-Reserves :
    (r : BudgetRegistry) (component bytes : ℕ)
    → IsWithin r
    → current_usage r component + bytes ≤ u64_max
    → ((Map.lookup component r.budgets ≡ none) × (try_reserve r component bytes ≡ ok r))
      ⊎ ((b : ComponentBudget) × (Map.lookup component r.budgets ≡ some b)
          × Reserves r component bytes b)
unfolding try_reserve
try_reserve-Reserves r component bytes v fit =
    elim (Option-cases (Map.lookup component r.budgets)) [
      | inl absent ↦ inl (absent, rw (absent, try_reserve) refl)
      | inr (b, found) ↦
          let used = usage_of r component b found in
          inr (
            b,
            found,
            elim (dec_le (b.current_owned_bytes + bytes) b.max_owned_bytes) [
              | yes room ↦
                  let b' = record b { current_owned_bytes = b.current_owned_bytes + bytes } in
                  inl (
                    room,
                    (
                      record r { budgets = Map.insert component b' r.budgets },
                      rw
                          (
                            found,
                            try_reserve,
                            reserve_fits b bytes component room (v component b found).1,
                          )
                          refl,
                      IsWithin-insert r component b' v (room, (v component b found).1),
                      λ other. usage-insert r component other b' ∙ ground (arith, used),
                    ),
                  )
              | no over ↦
                  let beyond : b.max_owned_bytes < b.current_owned_bytes + bytes = omega arith in
                  inr (
                    beyond,
                    rw
                        (
                          found,
                          try_reserve,
                          reserve_over b bytes component beyond (omega (arith, used)),
                        )
                        refl,
                  )
            ],
          )
    ]

-- Bytes that a registered component holds are given back to it alone, and every component stays within
-- its budget.
pub release_bytes_exact :
    (r : BudgetRegistry) (component bytes : ℕ) (b : ComponentBudget)
    → IsWithin r
    → Map.lookup component r.budgets ≡ some b
    → bytes ≤ b.current_owned_bytes
    → IsWithin (release_bytes r component bytes)
      × ((other : ℕ)
          → current_usage (release_bytes r component bytes) other
            ≡ (if component == other then current_usage r other - bytes else current_usage r other))
unfolding release_bytes
release_bytes_exact r component bytes b v found held =
    let (within, sane) = v component b found in
    let b' = record b { current_owned_bytes = b.current_owned_bytes - bytes } in
    let used = usage_of r component b found in
    rw (found, release_bytes, give_back_exact b bytes held (omega (arith, within, sane)))
      (
        IsWithin-insert r component b' v (omega (arith, within), sane),
        λ other. usage-insert r component other b' ∙ ground (arith, used),
      )

-- A release of more than a component holds does not stop at zero: the count wraps past every budget,
-- nothing remains, and every later reservation of at most what it wrapped to is refused, however small.
pub release_underflow :
    (b : ComponentBudget) (bytes more component : ℕ)
    → b.current_owned_bytes < bytes
    → b.max_owned_bytes + bytes ≤ u64_max
    → more + b.current_owned_bytes < bytes
    → let b' = give_back b bytes in
      (remaining b' ≡ 0)
      × (reserve b' more component
          ≡ err (budget_exceeded component b'.current_owned_bytes more b.max_owned_bytes))
unfolding give_back remaining reserve
release_underflow b bytes more component short fit little = (omega arith, ground arith)
