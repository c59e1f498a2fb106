-- ===== src/Resources/Manager/Charges.antt =====
-- What crates/torvyn-resources/src/manager.rs charges the budgets for: the capacity of the buffers that
-- a component owns.
use torvyn.Common.{
  index_cases, subst, ℕ, zero, suc, ◌+◌, ◌-◌, ◌≤◌, ◌≡◌, refl, sym, ◌∙◌, none, some, List, [], ◌∷◌,
  ◌++◌, get_elem?, set, false, ◌==◌, if◌then◌else◌, arith, Option-cases, inl, inr,
}
use torvyn.Common.Map
use torvyn.Common.Map.{lookup-insert}
use torvyn.Common.Word.{u64_max}
use torvyn.Resources.Handle.{OwnerId, host, component, transit, Slot, occupied, vacant, ok}
use torvyn.Resources.Table.{fresh_slots}
use torvyn.Resources.Budget.{ComponentBudget, BudgetRegistry, try_reserve, release_bytes}
use native.Mathlib.Decide.{dec_le}
use torvyn.Resources.Budget.Laws.{reserve_fits, reserve_over, give_back_exact}
use torvyn.Resources.Manager.{reserve_for, release_for}

-- The bytes of a buffer that count for a component.
abbrev pub owner_bytes : ℕ → OwnerId → ℕ → ℕ
owner_bytes c (component d) bytes = if d == c then bytes else 0
owner_bytes c host bytes = 0
owner_bytes c transit bytes = 0

abbrev pub slot_bytes : ℕ → Slot → ℕ
slot_bytes c (occupied e) = owner_bytes c e.owner e.payload_capacity
slot_bytes c (vacant n g) = 0

-- The bytes of the live buffers that a component owns.
unfoldable pub owned_bytes : ℕ → List Slot → ℕ
owned_bytes c [] = 0
owned_bytes c (slot ∷ slots) = slot_bytes c slot + owned_bytes c slots

pub owned_bytes-set :
    (c : ℕ) (es : List Slot) (i : ℕ) (s s' : Slot)
    → get_elem? es i ≡ some s
    → owned_bytes c (set es i s') + slot_bytes c s ≡ owned_bytes c es + slot_bytes c s'
unfolding owned_bytes
owned_bytes-set c [] i s s' h = ground arith
owned_bytes-set c (d ∷ es) zero s s' h = ground arith
owned_bytes-set c (d ∷ es) (suc i) s s' h = omega (arith, owned_bytes-set c es i s s' h)

owned_bytes-fresh : (c end i n : ℕ) → owned_bytes c (fresh_slots end i n) ≡ 0
unfolding owned_bytes fresh_slots
owned_bytes-fresh c end i zero = refl
owned_bytes-fresh c end i (suc n) = omega (arith, owned_bytes-fresh c end (i + 1) n)

pub owned_bytes-grow :
    (c : ℕ) (es : List Slot) (end i n : ℕ)
    → owned_bytes c (es ++ fresh_slots end i n) ≡ owned_bytes c es
unfolding owned_bytes
owned_bytes-grow c [] end i n = owned_bytes-fresh c end i n
owned_bytes-grow c (s ∷ es) end i n = omega (arith, owned_bytes-grow c es end i n)

-- Every registered component is charged what `owned` says, within a budget that stays one largest
-- buffer below 2^64.
abbrev pub Charges : BudgetRegistry → (ℕ → ℕ) → Type 0
Charges r owned =
    (c : ℕ) (b : ComponentBudget)
    → Map.lookup c r.budgets ≡ some b
    → (b.current_owned_bytes ≡ owned c)
      × (b.current_owned_bytes ≤ b.max_owned_bytes)
      × (b.max_owned_bytes + 16777216 ≤ u64_max)

pub Charges-ext :
    (r : BudgetRegistry) (owned owned' : ℕ → ℕ)
    → ((c : ℕ) → owned' c ≡ owned c)
    → Charges r owned
    → Charges r owned'
Charges-ext r owned owned' same v c b h =
    let (at, within, fits) = v c b h in (at ∙ sym (same c), within, fits)

Charges-insert :
    (r : BudgetRegistry) (owned owned' : ℕ → ℕ) (c : ℕ) (b : ComponentBudget)
    → Charges r owned
    → ((d : ℕ) → (c == d) ≡ false → owned' d ≡ owned d)
    → b.current_owned_bytes ≡ owned' c
    → b.current_owned_bytes ≤ b.max_owned_bytes
    → b.max_owned_bytes + 16777216 ≤ u64_max
    → Charges (record r { budgets = Map.insert c b r.budgets }) owned'
Charges-insert r owned owned' c b v other at le fits d b' h =
    ground (arith, lookup-insert c d b r.budgets, v d b', other d)

ok-injective : {A : Type 0} {a b : A} → ok a ≡ ok b → a ≡ b
ok-injective h = cc

-- Bytes of an unregistered component count for nobody who is registered.
absent-other :
    (r : BudgetRegistry) (d c : ℕ) (b : ComponentBudget)
    → Map.lookup d r.budgets ≡ none
    → Map.lookup c r.budgets ≡ some b
    → (d == c) ≡ false
absent-other r d c b absent found = elim (index_cases d c) [
  | inl same ↦ absurd (ground (arith, subst (λ k. Map.lookup k r.budgets ≡ none) same absent))
  | inr other ↦ ground arith
]

-- A reservation charges its owner.
pub reserve_for-Charges :
    (r r' : BudgetRegistry) (owned : ℕ → ℕ) (owner : OwnerId) (bytes : ℕ)
    → Charges r owned
    → bytes ≤ 16777216
    → reserve_for r owner bytes ≡ ok r'
    → Charges r' (λ c. owned c + owner_bytes c owner bytes)
unfolding reserve_for try_reserve
reserve_for-Charges r r' owned host bytes v fit h = ground arith
reserve_for-Charges r r' owned transit bytes v fit h = ground arith
reserve_for-Charges r r' owned (component d) bytes v fit h =
    let owned' : ℕ → ℕ = λ c. owned c + owner_bytes c (component d) bytes in
    elim (Option-cases (Map.lookup d r.budgets)) [
      | inl absent ↦
          let run : reserve_for r (component d) bytes ≡ ok r = rw (absent, try_reserve) refl in
          subst (λ x. Charges x owned') (ok-injective (sym run ∙ h))
            (λ c b found. ground (arith, v c b, absent-other r d c b absent found))
      | inr (b, found) ↦
          let (at, within, fits) = v d b found in
          elim (dec_le (b.current_owned_bytes + bytes) b.max_owned_bytes) [
            | yes room ↦
                let b' = record b { current_owned_bytes = b.current_owned_bytes + bytes } in
                let run : reserve_for r (component d) bytes
                    ≡ ok (record r { budgets = Map.insert d b' r.budgets }) =
                  rw (found, try_reserve, reserve_fits b bytes d room (omega (arith, fits))) refl in
                subst (λ x. Charges x owned') (ok-injective (sym run ∙ h))
                  (Charges-insert r owned owned' d b' v (λ c ne. ground arith) (ground arith) room
                    fits)
            | no over ↦
                let ran = reserve_over b bytes d (omega arith) (omega (arith, within, fits, fit)) in
                absurd (ground (arith, found, ran))
          ]
    ]

-- A release of bytes that are charged takes them off.
pub release_for-Charges :
    (r : BudgetRegistry) (owned : ℕ → ℕ) (owner : OwnerId) (bytes : ℕ)
    → Charges r (λ c. owned c + owner_bytes c owner bytes)
    → Charges (release_for r owner bytes) owned
unfolding release_for release_bytes
release_for-Charges r owned host bytes v = ground arith
release_for-Charges r owned transit bytes v = ground arith
release_for-Charges r owned (component d) bytes v = elim (Option-cases (Map.lookup d r.budgets)) [
  | inl absent ↦
      let run : release_for r (component d) bytes ≡ r = rw (absent, release_bytes) refl in
      subst (λ x. Charges x owned) (sym run)
        (λ c b found. ground (arith, v c b, absent-other r d c b absent found))
  | inr (b, found) ↦
      let (at, within, fits) = v d b found in
      let held : b.current_owned_bytes ≡ owned d + bytes = ground (arith, at) in
      let b' = record b { current_owned_bytes = b.current_owned_bytes - bytes } in
      let run : release_for r (component d) bytes
          ≡ record r { budgets = Map.insert d b' r.budgets } =
        rw (found, release_bytes, give_back_exact b bytes (omega arith) (omega arith)) refl in
      subst (λ x. Charges x owned) (sym run)
        (Charges-insert r (λ c. owned c + owner_bytes c (component d) bytes) owned d b' v
          (λ c ne. ground arith) (omega arith) (omega arith) fits)
]
