-- ===== src/Resources/Manager.antt =====
-- crates/torvyn-resources/src/manager.rs: the resource manager over the table, the pools and the
-- budgets. A call is taken in one piece, although the source holds its lock only for the table and the
-- indices, and takes and returns buffers outside of it. What the allocator takes back is logged, the
-- latest first. `alloc` is what `alloc_buffer` returns to the call, and `now` the time stamp.
pub mod Reclaim
pub mod Charges
pub mod Taking
mod Tests
pub mod Entering
pub mod Transfer
pub mod Release
pub mod Allocate
pub mod Keeping
pub mod FlowEnd
pub mod Crash
use torvyn.Common.{
  ℕ, ◌+◌, max, Bool, true, false, Option, none, some, List, [], ◌∷◌, ltb, ◌==◌, ◌&&◌, not,
  if◌then◌else◌, Run, returns, ◌>>=◌,
}
use torvyn.Common.Map
use torvyn.Common.Map.{Map}
use torvyn.Common.Word.{u32, u64}
use torvyn.Types.ResourceState.{ResourceState, owned}
use torvyn.Resources.Handle.{
  ResourceId, OwnerId, host, component, PoolTier, capacity, for_capacity, ResourceEntry, Result, ok,
  err, ResourceError, allocation_failed, capacity_exceeded,
}
use torvyn.Resources.Ownership
use torvyn.Resources.Table
use torvyn.Resources.Table.{ResourceTable, put}
use torvyn.Resources.Budget
use torvyn.Resources.Budget.{BudgetRegistry, try_reserve, release_bytes, unregister}
use torvyn.Resources.Pool
use torvyn.Resources.Pool.{BufferPoolSet, Allocation}
use torvyn.Resources.Index.{Index, index_add, index_drop, owner_add, owner_drop}
use torvyn.Resources.Payload.{Memory, max_buffer_size, zero_payload}

pub record ResourceManager : Type 0 where
  pub table : ResourceTable
  pub component_resources : Index
  pub flow_resources : Index
  pub pools : BufferPoolSet
  pub budgets : BudgetRegistry
  pub memory : Memory
  pub deallocated : List (ℕ × ℕ)

-- The two `if let OwnerId::Component(cid)` blocks on the budgets.
unfoldable pub reserve_for : BudgetRegistry → OwnerId → ℕ → Result BudgetRegistry
reserve_for r (component c) bytes = try_reserve r c bytes
reserve_for r _ bytes = ok r

unfoldable pub release_for : BudgetRegistry → OwnerId → ℕ → BudgetRegistry
release_for r (component c) bytes = release_bytes r c bytes
release_for r _ bytes = r

-- `self.pools.release(..)` of a buffer.
unfoldable pub return_buffer : ResourceManager → Allocation → ResourceManager
return_buffer m a =
    let (pools, gone) = Pool.release m.pools a in
    record m {
      pools = pools;
      deallocated = elim gone [ none ↦ m.deallocated | some buffer ↦ buffer ∷ m.deallocated ];
    }

abbrev pub allocation : ResourceEntry → Allocation
allocation e = record {
  ptr = e.buffer_ptr;
  alloc_size = e.alloc_size;
  tier = e.pool_tier;
  is_fallback = e.is_fallback;
}

unfoldable pub new_entry : OwnerId → Allocation → (actual_capacity flow_id now : ℕ) → ResourceEntry
new_entry owner a actual_capacity flow_id now = record {
  generation = 0;
  state = owned;
  owner = owner;
  borrow_count = 0;
  buffer_ptr = a.ptr;
  alloc_size = a.alloc_size;
  payload_capacity = actual_capacity;
  payload_len = 0;
  pool_tier = a.tier;
  is_fallback = a.is_fallback;
  read_only = false;
  content_type = [];
  flow_id = flow_id;
  created_at_ns = now;
}

-- What `allocate` does with the buffer of the pool: the entry and the indices, or the rollback.
unfoldable pub enter :
    ResourceManager
    → OwnerId
    → Allocation
    → (actual_capacity flow_id now : ℕ) → Run (ResourceManager × Result ResourceId)
unfolding new_entry return_buffer release_for owner_add index_add
enter m owner a actual_capacity flow_id now =
    Table.insert m.table (new_entry owner a actual_capacity flow_id now) >>= λ placed.
    returns (elim placed.1 [
      | ok id ↦ (
        record m {
          table = placed.0;
          component_resources = owner_add owner id m.component_resources;
          flow_resources = index_add flow_id id m.flow_resources;
        },
        ok id,
      )
      | err e ↦ (
        record (return_buffer (record m { table = placed.0 }) a) {
          budgets = release_for m.budgets owner actual_capacity;
        },
        err e,
      )
    ])

-- `allocate` once the bytes are reserved.
unfoldable pub allocate_reserved :
    (ℕ → Option (ℕ × ℕ))
    → ResourceManager
    → OwnerId
    → (min_capacity flow_id now : ℕ) → Run (ResourceManager × Result ResourceId)
unfolding enter
allocate_reserved alloc m owner min_capacity flow_id now =
    Pool.allocate alloc m.pools min_capacity >>= λ got. elim got.1 [
      | none ↦ returns (record m { pools = got.0 }, err (allocation_failed min_capacity))
      | some a ↦
          enter (record m { pools = got.0 }) owner a (max (capacity a.tier) min_capacity) flow_id
            now
    ]

unfoldable pub allocate :
    (ℕ → Option (ℕ × ℕ))
    → ResourceManager
    → OwnerId
    → (min_capacity flow_id now : ℕ) → Run (ResourceManager × Result ResourceId)
unfolding reserve_for allocate_reserved
allocate alloc m owner min_capacity flow_id now =
    if ltb max_buffer_size min_capacity
    then returns (
      m,
      err (capacity_exceeded (record { index = 0; generation = 0 }) max_buffer_size min_capacity),
    )
    else (elim (reserve_for m.budgets owner
        (max (capacity (for_capacity min_capacity)) min_capacity)) [
          | err e ↦ returns (m, err e)
          | ok budgets ↦
              allocate_reserved alloc (record m { budgets = budgets }) owner min_capacity flow_id
                now
        ])

-- Zeroes the payload and gives the buffer back.
unfoldable pub retire : ResourceManager → ResourceEntry → ResourceManager
unfolding return_buffer
retire m e =
    return_buffer (record m { memory = zero_payload m.memory e.buffer_ptr e.payload_capacity })
      (allocation e)

-- `release` once the entry is pooled.
unfoldable pub release_entry :
    ResourceManager → ResourceId → OwnerId → ResourceEntry → ResourceManager × Result (Unit {0})
unfolding retire release_for owner_drop index_drop
release_entry m handle caller entry =
    let (table, removed) = Table.remove m.table handle in
    elim removed [
      | err e ↦ (record m { table = table }, err e)
      | ok _ ↦ (
        retire
            (record m {
              table = table;
              component_resources = owner_drop caller handle m.component_resources;
              budgets = release_for m.budgets caller entry.payload_capacity;
              flow_resources = index_drop entry.flow_id handle m.flow_resources;
            })
            entry,
        ok tt,
      )
    ]

unfoldable pub release :
    ResourceManager → ResourceId → OwnerId → ResourceManager × Result (Unit {0})
unfolding release_entry
release m handle caller = elim (Table.get m.table handle) [
  | err e ↦ (m, err e)
  | ok entry ↦ elim (Ownership.release_to_pool handle entry caller) [
    | err e ↦ (m, err e)
    | ok pooled_entry ↦
        release_entry (record m { table = put m.table handle pooled_entry }) handle caller entry
  ]
]

-- `transfer_ownership` once the recipient's bytes are reserved.
unfoldable pub hand_over :
    ResourceManager
    → ResourceId
    → ResourceEntry
    → (from to : OwnerId) → ResourceManager × Result (Unit {0})
unfolding release_for owner_add owner_drop
hand_over m handle entry from to = elim (Ownership.begin_transfer handle entry from) [
  | err e ↦ (m, err e)
  | ok moving ↦ elim (Ownership.complete_transfer handle moving to) [
    | err e ↦ (record m { table = put m.table handle moving }, err e)
    | ok arrived ↦ (
      record m {
        table = put m.table handle arrived;
        component_resources = owner_add to handle (owner_drop from handle m.component_resources);
        budgets = release_for m.budgets from entry.payload_capacity;
      },
      ok tt,
    )
  ]
]

unfoldable pub transfer_ownership :
    ResourceManager → ResourceId → (from to : OwnerId) → ResourceManager × Result (Unit {0})
unfolding reserve_for hand_over
transfer_ownership m handle from to = elim (Table.get m.table handle) [
  | err e ↦ (m, err e)
  | ok entry ↦ elim (reserve_for m.budgets to entry.payload_capacity) [
    | err e ↦ (m, err e)
    | ok budgets ↦ hand_over (record m { budgets = budgets }) handle entry from to
  ]
]
