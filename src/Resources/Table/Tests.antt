-- ===== src/Resources/Table/Tests.antt =====
-- The theorems about the table at a table of two slots, the second of them occupied.
use torvyn.Common.{◌*◌, ◌<◌, ◌≡◌, ◌≢◌, refl, ◌⊎◌, false, [], ◌∷◌, arith, returns}
use torvyn.Common.Word.{u32_max}
use torvyn.Types.ResourceState.{owned}
use torvyn.Resources.Handle.{
  ResourceId, ResourceEntry, OwnerId, PoolTier, occupied, vacant, ok, err, allocation_failed,
}
use torvyn.Resources.Table.{
  ResourceTable, free_list_end, get, insert, insert_free, insert_at, remove,
}
use torvyn.Resources.Table.Invariant.{IsValid}
use torvyn.Resources.Table.Insert.{Inserted, insert-Inserted}
use torvyn.Resources.Table.Remove.{Removed, remove-Removed}
use torvyn.Resources.Table.Staleness.{Steps, start, next, inserting, removed-stays_stale}

abbrev entry : ResourceEntry
entry = record {
  generation = 1;
  state = owned;
  owner = OwnerId.host;
  borrow_count = 0;
  buffer_ptr = 4096;
  alloc_size = 320;
  payload_capacity = 256;
  payload_len = 0;
  pool_tier = PoolTier.small;
  is_fallback = false;
  read_only = false;
  content_type = [];
  flow_id = 1;
  created_at_ns = 0;
}

abbrev table : ResourceTable
table = record {
  entries = vacant free_list_end 0 ∷ occupied entry ∷ [];
  free_head = 0;
  len = 1;
  capacity = 2;
}

abbrev id : ResourceId
id = record { index = 1; generation = 1 }

table-IsValid : IsValid table
table-IsValid = (
  0 ∷ [],
  record {
    sized = refl;
    some_room = omega arith;
    fits = omega arith;
    linked = (refl, (free_list_end, 0, refl, refl));
    distinct = (tt, tt);
    counted = refl;
    covered = refl;
  },
)

found : get table id ≡ ok entry
unfolding get
found = refl

insert-Inserted_example :
    ((1 ≡ table.capacity)
      × (u32_max < table.capacity * 2)
      × (insert table entry ≡ returns (table, err (allocation_failed 0))))
    ⊎ ((t : ResourceTable) × (id' : ResourceId) × (insert table entry ≡ returns (t, ok id'))
        × Inserted table entry t id')
insert-Inserted_example = insert-Inserted table entry table-IsValid

remove-Removed_example :
    (t : ResourceTable) × (remove table id ≡ (t, ok entry)) × Removed table id t
remove-Removed_example = remove-Removed table id entry table-IsValid found

-- The slot of the handle after the removal, and after the insert that takes it again.
abbrev emptied : ResourceTable
emptied = record {
  entries = vacant free_list_end 0 ∷ vacant 0 1 ∷ [];
  free_head = 1;
  len = 0;
  capacity = 2;
}

abbrev reused : ResourceTable
reused = record {
  entries = vacant free_list_end 0 ∷ occupied (record entry { generation = 2 }) ∷ [];
  free_head = 0;
  len = 1;
  capacity = 2;
}

emptied_run : (remove table id).0 ≡ emptied
unfolding remove get
emptied_run = refl

reused_run : insert emptied entry ≡ returns (reused, ok (record { index = 1; generation = 2 }))
unfolding insert insert_free insert_at
reused_run = refl

reuse : Steps (remove table id).0 1 reused
unfolding remove get
reuse = next start (inserting entry (ok (record { index = 1; generation = 2 })) reused_run)

removed-stays_stale_example : get reused id ≢ ok (record entry { generation = 2 })
removed-stays_stale_example =
    removed-stays_stale table reused id entry (record entry { generation = 2 }) 1 (omega arith)
      found reuse (omega arith)
