-- ===== src/Resources/Manager/Tests.antt =====
-- The theorems about the manager at a manager with one buffer, which component 5 owns.
use torvyn.Common.{
  ℕ, zero, suc, ◌+◌, ◌≡◌, ◌≢◌, refl, ◌⊎◌, true, false, Option, none, List, ◌*◌, ◌<◌, some, [], ◌∷◌,
  arith, returns, get_elem?, max,
}
use torvyn.Common.Map
use torvyn.Types.ResourceState.{owned}
use torvyn.Resources.Handle.{
  ResourceId, ResourceEntry, ResourceError, host, component, PoolTier, occupied, vacant, ok, err,
  allocation_failed, for_capacity, capacity,
}
use torvyn.Resources.Ownership.Transitions.{IsFree}
use torvyn.Resources.Table.{ResourceTable, free_list_end, get}
use torvyn.Resources.Table.Invariant.{IsValid, get-occupied}
use torvyn.Resources.Table.Insert.{Inserted}
use torvyn.Resources.Budget.{BudgetRegistry, try_reserve, reserve}
use torvyn.Resources.Pool.{TierPool, Allocation, head_index, tier_pool}
use torvyn.Resources.Pool.Stack.{Stacks}
use torvyn.Resources.Pool.Whole.{Handed}
use torvyn.Common.Word.{u32_max}
use torvyn.Resources.Payload.{zero_payload}
use torvyn.Resources.Index.{has_id, ids_of, same_id}
use torvyn.Resources.Manager.{
  ResourceManager, reserve_for, new_entry, allocate, release, transfer_ownership,
}
use torvyn.Resources.Manager.Reclaim.{force_reclaim, reclaim_flow_buffers}
use torvyn.Resources.Manager.Charges.{Charges, owned_bytes, owner_bytes}
use torvyn.Resources.Manager.Taking.{IsConsistent, Taken}
use torvyn.Resources.Manager.Transfer.{transfer-IsConsistent, transfer_leak}
use torvyn.Resources.Manager.Release.{release-IsConsistent}
use torvyn.Resources.Manager.Allocate.{allocate-IsConsistent}
use torvyn.Resources.Manager.FlowEnd.{IsFlowIndexed, reclaim_flow-Reclaims}
use torvyn.Resources.Manager.Crash.{IsIndexed, force_reclaim-Reclaims}

abbrev id : ResourceId
id = record { index = 0; generation = 1 }

abbrev entry : ResourceEntry
entry = record {
  generation = 1;
  state = owned;
  owner = component 5;
  borrow_count = 0;
  buffer_ptr = 4096;
  alloc_size = 320;
  payload_capacity = 256;
  payload_len = 0;
  pool_tier = PoolTier.small;
  is_fallback = true;
  read_only = false;
  content_type = [];
  flow_id = 1;
  created_at_ns = 0;
}

abbrev table : ResourceTable
table = record {
  entries = occupied entry ∷ vacant free_list_end 0 ∷ [];
  free_head = 1;
  len = 1;
  capacity = 2;
}

abbrev bare : PoolTier → TierPool
bare tier = record {
  tier = tier;
  buffers = [];
  free_top = 4294967295;
  pool_size = 0;
  available = 0;
  alloc_count = 0;
  return_count = 0;
  fallback_count = 0;
  exhaustion_count = 0;
}

abbrev registry : BudgetRegistry
registry = record {
  budgets =
      (5, record { max_owned_bytes = 1000; current_owned_bytes = 256 })
      ∷ (6, record { max_owned_bytes = 1000; current_owned_bytes = 0 })
      ∷ [];
  default_max = 1000;
}

abbrev manager : ResourceManager
manager = record {
  table = table;
  component_resources = (5, id ∷ []) ∷ [];
  flow_resources = (1, id ∷ []) ∷ [];
  pools = record {
    small_pool = bare PoolTier.small;
    medium_pool = bare PoolTier.medium;
    large_pool = bare PoolTier.large;
    huge_pool = bare PoolTier.huge;
  };
  budgets = registry;
  memory = λ a. 7;
  deallocated = [];
}

table-IsValid : IsValid table
table-IsValid = (
  1 ∷ [],
  record {
    sized = refl;
    some_room = omega arith;
    fits = omega arith;
    linked = (refl, (free_list_end, 0, refl, refl));
    distinct = (tt, tt);
    counted = refl;
    covered = refl;
  },
)

-- The one entry that a slot of the table holds.
held_at :
    (i : ℕ) (e : ResourceEntry)
    → get_elem? table.entries i ≡ some (occupied e)
    → (i ≡ 0) × (entry ≡ e)
held_at zero e h = (refl, cc)
held_at (suc zero) e h = absurd (ground arith)
held_at (suc (suc i)) e h = absurd (ground arith)

only_entry : (i : ResourceId) (e : ResourceEntry) → get table i ≡ ok e → (id ≡ i) × (entry ≡ e)
only_entry i e h =
    let (here, gen) = get-occupied table i e h in
    let (at, same) = held_at i.index e here in ground (arith, at, same, gen)

manager-IsConsistent : IsConsistent manager
unfolding Map.lookup owned_bytes
manager-IsConsistent = record {
  table_valid = table-IsValid;
  legal = λ i e h. ground (arith, (only_entry i e h).1);
  charged = λ c b h. ground arith;
}

manager-IsIndexed : IsIndexed manager
unfolding Map.lookup has_id ids_of same_id
manager-IsIndexed c i e h = ground (arith, only_entry i e h)

found : get manager.table id ≡ ok entry
unfolding get
found = refl

free : IsFree entry (component 5)
free = (refl, refl, refl)

abbrev reserved : BudgetRegistry
reserved = record registry {
  budgets = (6, record { max_owned_bytes = 1000; current_owned_bytes = 256 }) ∷ registry.budgets;
}

reserved_run : reserve_for manager.budgets (component 6) 256 ≡ ok reserved
unfolding reserve_for try_reserve reserve Map.lookup Map.insert
reserved_run = refl

transfer-IsConsistent_example :
    (m' : ResourceManager) × (transfer_ownership manager id (component 5) (component 6)
      ≡ (m', ok tt))
    × IsConsistent m'
    × (get m'.table id ≡ ok (record entry { state = owned; owner = component 6 }))
    × ((i : ResourceId) → i.index ≢ 0 → get m'.table i ≡ get table i)
transfer-IsConsistent_example =
    transfer-IsConsistent manager reserved id entry (component 5) (component 6) manager-IsConsistent
      found free reserved_run

not_host : ¬ IsFree entry host
not_host f = absurd (ground arith)

transfer_leak_example :
    (er : ResourceError) × (transfer_ownership manager id host (component 6)
      ≡ (record manager { budgets = reserved }, err er))
    × Charges reserved (λ c. owned_bytes c table.entries + owner_bytes c (component 6) 256)
transfer_leak_example =
    transfer_leak manager reserved id entry host (component 6) manager-IsConsistent found not_host
      reserved_run

release-IsConsistent_example :
    (m' : ResourceManager) × (release manager id (component 5) ≡ (m', ok tt))
    × IsConsistent m'
    × Taken table id entry m'.table
    × (m'.memory ≡ zero_payload (λ a. 7) 4096 256)
release-IsConsistent_example =
    release-IsConsistent manager id entry (component 5) manager-IsConsistent found free

not_free : (e : ResourceEntry) → get manager.table id ≡ ok e → ¬ IsFree e host
not_free e h f = absurd (ground (arith, (only_entry id e h).1))

bare-Stacks : Stacks (bare PoolTier.small) []
unfolding head_index
bare-Stacks = record {
  stacked = refl;
  distinct = tt;
  counted = refl;
  few = omega arith;
  apart = λ i j b c h k e. absurd (ground arith);
}

small-Stacks : Stacks (tier_pool manager.pools (for_capacity 100)) []
unfolding tier_pool for_capacity
small-Stacks = bare-Stacks

abbrev alloc : ℕ → Option (ℕ × ℕ)
alloc n = some (8192, n + 64)

reserved_small :
    reserve_for manager.budgets (component 6) (max (capacity (for_capacity 100)) 100) ≡ ok reserved
unfolding reserve_for try_reserve reserve Map.lookup Map.insert for_capacity
reserved_small = refl

allocate-IsConsistent_example :
    ((m' : ResourceManager) × (allocate alloc manager (component 6) 100 1 0
        ≡ returns (m', err (allocation_failed 100)))
      × (◌≡◌ {A = List ℕ} [] [])
      × (alloc (max (capacity (for_capacity 100)) 100) ≡ none)
      × (m'.table ≡ table)
      × Charges m'.budgets (λ c.
        owned_bytes c table.entries
        + owner_bytes c (component 6) (max (capacity (for_capacity 100)) 100)))
    ⊎ (((m' : ResourceManager) × (allocate alloc manager (component 6) 100 1 0
            ≡ returns (m', err (allocation_failed 0)))
          × (table.len ≡ table.capacity)
          × (u32_max < table.capacity * 2)
          × IsConsistent m'
          × (m'.table ≡ table))
        ⊎ ((m' : ResourceManager) × (i : ResourceId) × (a : Allocation) × (allocate alloc manager
                (component 6)
                100
                1
                0
              ≡ returns (m', ok i))
            × Handed alloc (tier_pool manager.pools (for_capacity 100)) (for_capacity 100) 100 [] a
            × IsConsistent m'
            × Inserted table
                (new_entry (component 6) a (max (capacity (for_capacity 100)) 100) 1 0)
                m'.table
                i))
allocate-IsConsistent_example =
    allocate-IsConsistent alloc manager (component 6) 100 1 0 reserved [] manager-IsConsistent
      (omega arith) small-Stacks reserved_small

force_reclaim-Reclaims_example : IsConsistent (force_reclaim manager 5).0
force_reclaim-Reclaims_example =
    (force_reclaim-Reclaims manager 5 manager-IsConsistent manager-IsIndexed).0

manager-IsFlowIndexed : IsFlowIndexed manager
unfolding Map.lookup has_id ids_of same_id
manager-IsFlowIndexed f i e h = ground (arith, only_entry i e h)

reclaim_flow-Reclaims_example : IsConsistent (reclaim_flow_buffers manager 1).0
reclaim_flow-Reclaims_example =
    (reclaim_flow-Reclaims manager 1 manager-IsConsistent manager-IsFlowIndexed).0
