-- ===== src/Resources/Manager/Reclaim.antt =====
-- The two clean-ups of crates/torvyn-resources/src/manager.rs: of a component that crashed and of a flow
-- that ended.
use torvyn.Common.{ℕ, ◌+◌, Bool, not, List, [], ◌∷◌, ◌++◌, if◌then◌else◌, ltb}
use torvyn.Common.Map
use torvyn.Common.Word.{u32, u64}
use torvyn.Types.ResourceState.{ResourceState, owned}
use torvyn.Resources.Handle.{ResourceId, OwnerId, host, ResourceEntry, ok, err}
use torvyn.Resources.Table
use torvyn.Resources.Table.{put}
use torvyn.Resources.Budget.{unregister}
use torvyn.Resources.Index.{ids_of, index_drop, owner_drop}
use torvyn.Resources.Manager.{ResourceManager, retire, release_for}

pub record ResourceReclaimed : Type 0 where
  pub resource_id : ResourceId
  pub previous_state : ResourceState
  pub previous_owner : OwnerId
  pub payload_capacity : ℕ
  pub returned_to_pool : Bool

abbrev reclaimed : ResourceId → ResourceEntry → ResourceReclaimed
reclaimed id e = record {
  resource_id = id;
  previous_state = e.state;
  previous_owner = e.owner;
  payload_capacity = e.payload_capacity;
  returned_to_pool = not e.is_fallback;
}

-- The body of the loop of `force_reclaim`: the manager after it, and the report if there is one.
unfoldable pub reclaim_one : ResourceManager → ResourceId → ResourceManager × List ResourceReclaimed
unfolding retire index_drop
reclaim_one m id = elim (Table.get m.table id) [
  | err _ ↦ (m, [])
  | ok entry ↦
      let cleared = record entry { borrow_count = 0; state = owned; owner = host } in
      let (table, removed) = Table.remove (put m.table id cleared) id in
      elim removed [
        | err _ ↦ (record m { table = table }, [])
        | ok _ ↦ (
          retire
              (record m {
                table = table;
                flow_resources = index_drop entry.flow_id id m.flow_resources;
              })
              entry,
          reclaimed id entry ∷ [],
        )
      ]
]

unfoldable pub reclaim_all :
    ResourceManager → List ResourceId → ResourceManager × List ResourceReclaimed
unfolding reclaim_one
reclaim_all m [] = (m, [])
reclaim_all m (id ∷ ids) =
    let (m', report) = reclaim_one m id in
    let (last, reports) = reclaim_all m' ids in (last, report ++ reports)

unfoldable pub force_reclaim : ResourceManager → ℕ → ResourceManager × List ResourceReclaimed
unfolding reclaim_all ids_of
force_reclaim m c =
    let (last, reports) =
      reclaim_all (record m { component_resources = Map.remove c m.component_resources })
        (ids_of c m.component_resources) in
    (record last { budgets = unregister last.budgets c }, reports)

pub record FlowResourceStats : Type 0 where
  pub returned_to_pool : ℕ  -- u32
  pub deallocated : ℕ  -- u32
  pub total_bytes_released : ℕ  -- u64
  pub borrows_cleared : ℕ  -- u32

abbrev pub no_stats : FlowResourceStats
no_stats = record {
  returned_to_pool = 0;
  deallocated = 0;
  total_bytes_released = 0;
  borrows_cleared = 0;
}

unfoldable pub count_borrows : FlowResourceStats → ResourceEntry → FlowResourceStats
count_borrows s e = record s {
  borrows_cleared =
      if ltb 0 e.borrow_count then u32 (s.borrows_cleared + e.borrow_count) else s.borrows_cleared;
}

unfoldable pub count_buffer : FlowResourceStats → ResourceEntry → FlowResourceStats
count_buffer s e = record s {
  deallocated = if e.is_fallback then u32 (s.deallocated + 1) else s.deallocated;
  returned_to_pool = if e.is_fallback then s.returned_to_pool else u32 (s.returned_to_pool + 1);
  total_bytes_released = u64 (s.total_bytes_released + e.payload_capacity);
}

-- The body of the loop of `reclaim_flow_buffers`.
unfoldable pub reclaim_flow_one :
    ResourceManager → FlowResourceStats → ResourceId → ResourceManager × FlowResourceStats
unfolding retire owner_drop release_for count_borrows count_buffer
reclaim_flow_one m s id = elim (Table.get m.table id) [
  | err _ ↦ (m, s)
  | ok entry ↦
      let cleared = record entry { borrow_count = 0 } in
      let (table, removed) = Table.remove (put m.table id cleared) id in
      let m' = record m {
        table = table;
        component_resources = owner_drop entry.owner id m.component_resources;
        budgets = release_for m.budgets entry.owner entry.payload_capacity;
      } in
      elim removed [
        | err _ ↦ (m', count_borrows s entry)
        | ok _ ↦ (retire m' entry, count_buffer (count_borrows s entry) entry)
      ]
]

unfoldable pub reclaim_flow_all :
    ResourceManager → FlowResourceStats → List ResourceId → ResourceManager × FlowResourceStats
unfolding reclaim_flow_one
reclaim_flow_all m s [] = (m, s)
reclaim_flow_all m s (id ∷ ids) =
    let (m', s') = reclaim_flow_one m s id in reclaim_flow_all m' s' ids

unfoldable pub reclaim_flow_buffers : ResourceManager → ℕ → ResourceManager × FlowResourceStats
unfolding reclaim_flow_all ids_of
reclaim_flow_buffers m flow_id =
    reclaim_flow_all (record m { flow_resources = Map.remove flow_id m.flow_resources }) no_stats
      (ids_of flow_id m.flow_resources)
