-- ===== src/Resources/Manager/Transfer.antt =====
-- `transfer_ownership` of crates/torvyn-resources/src/manager.rs.
use torvyn.Common.{ℕ, ◌+◌, ◌≤◌, ◌≡◌, refl, sym, subst, ◌∙◌, ◌≢◌, inl, inr, index_cases}
use torvyn.Types.ResourceState.{owned, transit}
use torvyn.Resources.Handle.{ResourceEntry, ResourceId, OwnerId, ok, err, ResourceError}
use torvyn.Resources.Ownership.{complete_transfer}
use torvyn.Resources.Ownership.Transitions.{IsFree, release_iff, refused_unless_free}
use torvyn.Resources.Table.{get, put}
use torvyn.Resources.Table.Remove.{put-IsValid}
use torvyn.Resources.Budget.{BudgetRegistry}
use torvyn.Resources.Index.{owner_add, owner_drop}
use torvyn.Resources.Manager.{
  ResourceManager, reserve_for, release_for, hand_over, transfer_ownership,
}
use torvyn.Resources.Manager.Charges.{
  owner_bytes, owned_bytes, Charges, Charges-ext, reserve_for-Charges, release_for-Charges,
}
use torvyn.Resources.Manager.Taking.{IsConsistent, same-entry, put-owned_bytes}

complete_arrives :
    (h : ResourceId) (e : ResourceEntry) (to : OwnerId)
    → complete_transfer h (record e { state = transit; owner = OwnerId.transit }) to
      ≡ ok (record e { state = owned; owner = to })
unfolding complete_transfer
complete_arrives h e to = refl

-- The manager after a transfer, once `budgets` is what the reservation left.
unfoldable pub transferred :
    ResourceManager
    → BudgetRegistry
    → ResourceId
    → ResourceEntry
    → (from to : OwnerId) → ResourceManager
unfolding release_for owner_add owner_drop
transferred m budgets h e from to = record m {
  table = put m.table h (record e { state = owned; owner = to });
  component_resources = owner_add to h (owner_drop from h m.component_resources);
  budgets = release_for budgets from e.payload_capacity;
}

transfer-run :
    (m : ResourceManager) (budgets : BudgetRegistry) (h : ResourceId) (e : ResourceEntry)
    (from to : OwnerId)
    → get m.table h ≡ ok e
    → IsFree e from
    → reserve_for m.budgets to e.payload_capacity ≡ ok budgets
    → transfer_ownership m h from to ≡ (transferred m budgets h e from to, ok tt)
unfolding transfer_ownership hand_over transferred
transfer-run m budgets h e from to here free reserved =
    let begun = (release_iff h e from).1.1 free in
    rw (here, transfer_ownership, reserved) (rw (begun, hand_over, complete_arrives h e to) refl)

-- On a consistent manager the owner of an unborrowed buffer hands it over when the recipient's budget takes it: the handle then
-- reaches the same buffer under its new owner, every other index what it reached, and the budgets charge
-- the recipient and no longer the giver, who may be the same; the manager stays consistent.
pub transfer-IsConsistent :
    (m : ResourceManager) (budgets : BudgetRegistry) (h : ResourceId) (e : ResourceEntry)
    (from to : OwnerId)
    → IsConsistent m
    → get m.table h ≡ ok e
    → IsFree e from
    → reserve_for m.budgets to e.payload_capacity ≡ ok budgets
    → (m' : ResourceManager) × (transfer_ownership m h from to ≡ (m', ok tt))
      × IsConsistent m'
      × (get m'.table h ≡ ok (record e { state = owned; owner = to }))
      × ((id : ResourceId) → id.index ≢ h.index → get m'.table id ≡ get m.table id)
unfolding transferred
transfer-IsConsistent m budgets h e from to v here free reserved =
    let arrived = record e { state = owned; owner = to } in
    let (valid, reached, apart) = put-IsValid m.table h e arrived v.table_valid here refl in
    let bytes = e.payload_capacity in
    let now : ℕ → ℕ = λ c. owned_bytes c (put m.table h arrived).entries in
    let taken =
      reserve_for-Charges m.budgets budgets (λ c. owned_bytes c m.table.entries) to bytes v.charged
        (v.legal h e here) reserved in
    let both =
      Charges-ext budgets _ (λ c. now c + owner_bytes c from bytes)
        (λ c.
          subst
            (λ o.
              now c + owner_bytes c o bytes
              ≡ owned_bytes c m.table.entries + owner_bytes c to bytes)
            free.1 (put-owned_bytes m.table h e arrived c here))
        taken in
    let m' = transferred m budgets h e from to in
    (
      m',
      transfer-run m budgets h e from to here free reserved,
      record {
        table_valid = valid;
        legal = λ id d h'. elim (index_cases id.index h.index) [
          | inl same ↦
              subst (λ (x : ResourceEntry). x.payload_capacity ≤ 16777216)
                (sym (same-entry m'.table id h d arrived h' reached same)) (v.legal h e here)
          | inr other ↦ v.legal id d (sym (apart id other) ∙ h')
        ];
        charged = release_for-Charges budgets now from bytes both;
      },
      reached,
      apart,
    )

-- A transfer that the recipient's budget allows and the ownership rules refuse fails, and leaves the
-- reservation behind: nothing but the budgets changes, and the recipient is charged for a buffer that it
-- does not get.
pub transfer_leak :
    (m : ResourceManager) (budgets : BudgetRegistry) (h : ResourceId) (e : ResourceEntry)
    (from to : OwnerId)
    → IsConsistent m
    → get m.table h ≡ ok e
    → ¬ IsFree e from
    → reserve_for m.budgets to e.payload_capacity ≡ ok budgets
    → (er : ResourceError) × (transfer_ownership m h from to
        ≡ (record m { budgets = budgets }, err er))
      × Charges budgets (λ c. owned_bytes c m.table.entries + owner_bytes c to e.payload_capacity)
unfolding transfer_ownership hand_over
transfer_leak m budgets h e from to v here busy reserved =
    let (er, _, refused) = refused_unless_free h e from busy in
    (
      er,
      rw (here, transfer_ownership, reserved) (rw (refused, hand_over) refl),
      reserve_for-Charges m.budgets budgets (λ c. owned_bytes c m.table.entries) to
          e.payload_capacity v.charged (v.legal h e here) reserved,
    )
