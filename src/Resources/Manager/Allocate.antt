-- ===== src/Resources/Manager/Allocate.antt =====
-- `allocate` of crates/torvyn-resources/src/manager.rs.
use torvyn.Common.{
  ltb, false, ℕ, ◌≡◌, refl, ap, ◌∙◌, ◌⊎◌, inl, inr, arith, List, Option, none, some, returns, max,
  ◌+◌, ◌≤◌, ◌<◌, ◌*◌, [],
}
use torvyn.Common.Word.{u32_max}
use torvyn.Resources.Handle.{
  capacity, for_capacity, OwnerId, ResourceEntry, ResourceId, ok, err, allocation_failed,
}
use torvyn.Resources.Table.{get}
use torvyn.Resources.Table.Invariant.{IsValid}
use torvyn.Resources.Table.Insert.{Inserted, insert-Inserted}
use torvyn.Resources.Budget.{BudgetRegistry}
use torvyn.Resources.Pool.{Allocation, tier_pool}
use torvyn.Resources.Pool.Stack.{Stacks}
use torvyn.Resources.Pool.Whole.{Serves, Handed, allocate-Serves}
use torvyn.Resources.Index.{owner_add, index_add}
use torvyn.Resources.Payload.{max_buffer_size}
use torvyn.Resources.Manager.{
  ResourceManager, reserve_for, release_for, new_entry, enter, allocate_reserved, allocate,
  return_buffer,
}
use torvyn.Resources.Manager.Charges.{
  owner_bytes, owned_bytes, Charges, Charges-ext, reserve_for-Charges, release_for-Charges,
}
use torvyn.Resources.Manager.Entering.{insert-owned_bytes, insert-legal}
use torvyn.Resources.Manager.Taking.{IsConsistent}

-- What the entry of the buffer in the table leaves, where `bytes` are reserved for its owner.
record Entered (m : ResourceManager) (owner : OwnerId) (a : Allocation) (bytes flow_id now : ℕ)
    (m' : ResourceManager) (id : ResourceId) : Type 0 where
  consistent : IsConsistent m'
  entered : Inserted m.table (new_entry owner a bytes flow_id now) m'.table id

enter-IsConsistent :
    (m : ResourceManager) (owner : OwnerId) (a : Allocation) (bytes flow_id now : ℕ)
    → IsValid m.table
    → ((i : ResourceId) (e : ResourceEntry) → get m.table i ≡ ok e → e.payload_capacity ≤ 16777216)
    → Charges m.budgets (λ c. owned_bytes c m.table.entries + owner_bytes c owner bytes)
    → bytes ≤ 16777216
    → ((m' : ResourceManager) × (enter m owner a bytes flow_id now
          ≡ returns (m', err (allocation_failed 0)))
        × (m.table.len ≡ m.table.capacity)
        × (u32_max < m.table.capacity * 2)
        × IsConsistent m'
        × (m'.table ≡ m.table))
      ⊎ ((m' : ResourceManager) × (id : ResourceId) × (enter m owner a bytes flow_id now
            ≡ returns (m', ok id))
          × Entered m owner a bytes flow_id now m' id)
unfolding enter new_entry return_buffer
enter-IsConsistent m owner a bytes flow_id now valid legal charged small =
    let entry = new_entry owner a bytes flow_id now in
    elim (insert-Inserted m.table entry valid) [
      | inl (full, over, failed) ↦ inl (
        record (return_buffer m a) { budgets = release_for m.budgets owner bytes },
        rw (failed, enter) refl,
        full,
        over,
        record {
          table_valid = valid;
          legal = legal;
          charged =
              release_for-Charges m.budgets (λ c. owned_bytes c m.table.entries) owner bytes
                charged;
        },
        refl,
      )
      | inr (t', id, ran, done) ↦ inr (
        record m {
          table = t';
          component_resources = owner_add owner id m.component_resources;
          flow_resources = index_add flow_id id m.flow_resources;
        },
        id,
        rw (ran, enter) refl,
        record {
          consistent = record {
            table_valid = done.valid;
            legal = insert-legal m.table t' entry id ran small legal;
            charged =
                Charges-ext m.budgets _ _ (λ c. insert-owned_bytes m.table t' entry id c ran)
                  charged;
          };
          entered = done;
        },
      )
    ]

capacity_small :
    (min_capacity : ℕ)
    → min_capacity ≤ max_buffer_size
    → max (capacity (for_capacity min_capacity)) min_capacity ≤ 16777216
unfolding for_capacity
capacity_small min_capacity h = ground arith

allocate-allowed :
    (alloc : ℕ → Option (ℕ × ℕ)) (m : ResourceManager) (owner : OwnerId)
    (min_capacity flow_id now : ℕ) (budgets : BudgetRegistry)
    → min_capacity ≤ max_buffer_size
    → reserve_for m.budgets owner (max (capacity (for_capacity min_capacity)) min_capacity)
      ≡ ok budgets
    → allocate alloc m owner min_capacity flow_id now
      ≡ allocate_reserved alloc (record m { budgets = budgets }) owner min_capacity flow_id now
unfolding allocate
allocate-allowed alloc m owner min_capacity flow_id now budgets fits reserved =
    let small : ltb max_buffer_size min_capacity ≡ false = ground arith in
    rw (small, allocate, reserved) refl

allocate_reserved-oom :
    (alloc : ℕ → Option (ℕ × ℕ)) (m : ResourceManager) (owner : OwnerId)
    (min_capacity flow_id now : ℕ) (s : Serves alloc m.pools min_capacity none)
    → allocate_reserved alloc m owner min_capacity flow_id now
      ≡ returns (record m { pools = s.pools }, err (allocation_failed min_capacity))
unfolding allocate_reserved
allocate_reserved-oom alloc m owner min_capacity flow_id now s = rw (s.run, allocate_reserved) refl

allocate_reserved-served :
    (alloc : ℕ → Option (ℕ × ℕ)) (m : ResourceManager) (owner : OwnerId)
    (min_capacity flow_id now : ℕ) (a : Allocation) (s : Serves alloc m.pools min_capacity (some a))
    → a.tier ≡ for_capacity min_capacity
    → allocate_reserved alloc m owner min_capacity flow_id now
      ≡ enter
          (record m { pools = s.pools })
          owner
          a
          (max (capacity (for_capacity min_capacity)) min_capacity)
          flow_id
          now
unfolding allocate_reserved
allocate_reserved-served alloc m owner min_capacity flow_id now a s tier =
    rw (s.run, allocate_reserved)
      (ap
        (λ t.
          enter (record m { pools = s.pools }) owner a (max (capacity t) min_capacity) flow_id now)
        tier)

-- On a consistent manager with a well-formed free stack, a request of legal size whose bytes are
-- reserved has one of three outcomes. The stack of its tier is empty and the system has no memory: it
-- fails, the table is as it was, and the reservation is left behind. The table is full and cannot
-- double: it fails, the table is as it was, and the reservation is given back. Else a new handle reaches a
-- new entry of the owner's over the top buffer of the stack, or over the system's where that is empty, all
-- other handles reach what they reached, and the budgets charge exactly what is owned.
pub allocate-IsConsistent :
    (alloc : ℕ → Option (ℕ × ℕ)) (m : ResourceManager) (owner : OwnerId)
    (min_capacity flow_id now : ℕ) (budgets : BudgetRegistry) (free : List ℕ)
    → IsConsistent m
    → min_capacity ≤ max_buffer_size
    → Stacks (tier_pool m.pools (for_capacity min_capacity)) free
    → let bytes = max (capacity (for_capacity min_capacity)) min_capacity in
      reserve_for m.budgets owner bytes ≡ ok budgets
      → ((m' : ResourceManager) × (allocate alloc m owner min_capacity flow_id now
            ≡ returns (m', err (allocation_failed min_capacity)))
          × (free ≡ [])
          × (alloc bytes ≡ none)
          × (m'.table ≡ m.table)
          × Charges m'.budgets (λ c. owned_bytes c m.table.entries + owner_bytes c owner bytes))
        ⊎ (((m' : ResourceManager) × (allocate alloc m owner min_capacity flow_id now
                ≡ returns (m', err (allocation_failed 0)))
              × (m.table.len ≡ m.table.capacity)
              × (u32_max < m.table.capacity * 2)
              × IsConsistent m'
              × (m'.table ≡ m.table))
            ⊎ ((m' : ResourceManager) × (id : ResourceId) × (a : Allocation) × (allocate alloc m
                    owner min_capacity flow_id now
                  ≡ returns (m', ok id))
                × Handed alloc
                    (tier_pool m.pools (for_capacity min_capacity))
                    (for_capacity min_capacity)
                    min_capacity
                    free
                    a
                × IsConsistent m'
                × Inserted m.table (new_entry owner a bytes flow_id now) m'.table id))
allocate-IsConsistent alloc m owner min_capacity flow_id now budgets free v fits stacked reserved =
    let bytes = max (capacity (for_capacity min_capacity)) min_capacity in
    let m1 = record m { budgets = budgets } in
    let small = capacity_small min_capacity fits in
    let charged =
      reserve_for-Charges m.budgets budgets (λ c. owned_bytes c m.table.entries) owner bytes
        v.charged small reserved in
    let allowed = allocate-allowed alloc m owner min_capacity flow_id now budgets fits reserved in
    elim (allocate-Serves alloc m.pools min_capacity free stacked) [
      | inl (s, bare, oom) ↦ inl (
        record m1 { pools = s.pools },
        allowed ∙ allocate_reserved-oom alloc m1 owner min_capacity flow_id now s,
        bare,
        oom,
        refl,
        charged,
      )
      | inr (a, s, handed) ↦
          let run =
            allowed
            ∙ allocate_reserved-served alloc m1 owner min_capacity flow_id now a s handed.of_tier in
          elim (enter-IsConsistent (record m1 { pools = s.pools }) owner a bytes flow_id now
            v.table_valid v.legal charged small) [
              | inl (m', failed, full, over, done, same) ↦
                  inr (inl (m', run ∙ failed, full, over, done, same))
              | inr (m', id, ran, done) ↦
                  inr (inr (m', id, a, run ∙ ran, handed, done.consistent, done.entered))
            ]
    ]
