-- ===== src/Resources/Manager/FlowEnd.antt =====
-- `reclaim_flow_buffers` of crates/torvyn-resources/src/manager.rs.
use torvyn.Common.{
  ℕ, ◌≡◌, refl, ◌↔◌, ◌≢◌, Bool-cases, true, List, [], ◌∷◌, arith, inl, inr, sym, ap, subst,
}
use torvyn.Common.Map
use torvyn.Resources.Handle.{
  ResourceId, ResourceEntry, ok, err, Result, ResourceError, Result-cases,
}
use torvyn.Resources.Table.{ResourceTable, get, put, remove}
use torvyn.Resources.Index.{has_id, ids_of, owner_drop}
use torvyn.Resources.Manager.{ResourceManager, retire, release_for}
use torvyn.Resources.Manager.Reclaim.{
  FlowResourceStats, no_stats, reclaim_flow_one, reclaim_flow_all, reclaim_flow_buffers,
}
use torvyn.Resources.Manager.Charges.{owned_bytes, Charges-ext, release_for-Charges}
use torvyn.Resources.Manager.Keeping.{
  LeavesOut, Taken-LeavesOut, stale-LeavesOut, nil-LeavesOut, cons-LeavesOut,
}
use torvyn.Resources.Manager.Taking.{IsConsistent, put-remove-Taken}

-- The flow index names exactly the buffers of each flow, beside stale handles.
abbrev pub IsFlowIndexed : ResourceManager → Type 0
IsFlowIndexed m =
    (f : ℕ) (id : ResourceId) (e : ResourceEntry)
    → get m.table id ≡ ok e
    → (has_id id (ids_of f m.flow_resources) ≡ true) ↔ (e.flow_id ≡ f)

-- What remains after the buffers of `ids` are given back.
record Remains (ids : List ResourceId) (m m' : ResourceManager) : Type 0 where
  consistent : IsConsistent m'
  kept : LeavesOut ids m.table m'.table

-- The manager after the buffer of an entry was given back.
unfoldable given_back :
    ResourceManager → ResourceTable → ResourceId → ResourceEntry → ResourceManager
unfolding retire owner_drop release_for
given_back m table id e =
    retire
      (record m {
        table = table;
        component_resources = owner_drop e.owner id m.component_resources;
        budgets = release_for m.budgets e.owner e.payload_capacity;
      })
      e

reclaim_flow_one-live :
    (m : ResourceManager) (s : FlowResourceStats) (table : ResourceTable) (id : ResourceId)
    (e : ResourceEntry)
    → get m.table id ≡ ok e
    → remove (put m.table id (record e { borrow_count = 0 })) id
      ≡ (table, ok (record e { borrow_count = 0 }))
    → (reclaim_flow_one m s id).0 ≡ given_back m table id e
unfolding reclaim_flow_one given_back
reclaim_flow_one-live m s table id e here removed =
    rw (here, reclaim_flow_one)
      (rw (removed, reclaim_flow_one)
        (ap (λ (p : ResourceTable × Result ResourceEntry). given_back m p.0 id e) removed))

reclaim_flow_one-stale :
    (m : ResourceManager) (s : FlowResourceStats) (id : ResourceId) (er : ResourceError)
    → get m.table id ≡ err er
    → (reclaim_flow_one m s id).0 ≡ m
unfolding reclaim_flow_one
reclaim_flow_one-stale m s id er h = rw (h, reclaim_flow_one) refl

reclaim_flow_one-Remains :
    (m : ResourceManager) (s : FlowResourceStats) (id : ResourceId)
    → IsConsistent m
    → Remains (id ∷ []) m (reclaim_flow_one m s id).0
unfolding given_back retire
reclaim_flow_one-Remains m s id v = elim (Result-cases (get m.table id)) [
  | inl (e, here) ↦
      let (table, removed, taken) =
        put-remove-Taken m.table id e (record e { borrow_count = 0 }) v.table_valid here refl in
      subst (λ x. Remains (id ∷ []) m x) (sym (reclaim_flow_one-live m s table id e here removed))
        (record {
          consistent = record {
            table_valid = taken.valid;
            legal = λ i d h'. v.legal i d (taken.nothing_new i d h').1;
            charged =
                release_for-Charges m.budgets (λ c. owned_bytes c table.entries) e.owner
                  e.payload_capacity (Charges-ext m.budgets _ _ (λ c. taken.uncharged c) v.charged);
          };
          kept = Taken-LeavesOut m.table table id e here taken;
        })
  | inr (er, stale) ↦
      subst (λ x. Remains (id ∷ []) m x) (sym (reclaim_flow_one-stale m s id er stale))
        (record { consistent = v; kept = stale-LeavesOut m.table id er stale })
]

reclaim_flow_all-Remains :
    (ids : List ResourceId) (m : ResourceManager) (s : FlowResourceStats)
    → IsConsistent m
    → Remains ids m (reclaim_flow_all m s ids).0
unfolding reclaim_flow_all
reclaim_flow_all-Remains [] m s v = record { consistent = v; kept = nil-LeavesOut m.table }
reclaim_flow_all-Remains (i ∷ ids) m s v =
    let step = reclaim_flow_one-Remains m s i v in
    let rest =
      reclaim_flow_all-Remains ids (reclaim_flow_one m s i).0 (reclaim_flow_one m s i).1
        step.consistent in
    record {
      consistent = rest.consistent;
      kept = cons-LeavesOut m.table _ _ i ids step.kept rest.kept;
    }

-- After the clean-up of a flow on a consistent manager no handle reaches a buffer of that flow, whoever
-- owned it and whether borrowed or not, and every other handle reaches what it reached; the owners are
-- no longer charged for what is gone. The flow index must be right before.
pub reclaim_flow-Reclaims :
    (m : ResourceManager) (f : ℕ)
    → IsConsistent m
    → IsFlowIndexed m
    → IsConsistent (reclaim_flow_buffers m f).0
      × ((id : ResourceId) (e : ResourceEntry)
          → (get (reclaim_flow_buffers m f).0.table id ≡ ok e)
            ↔ ((get m.table id ≡ ok e) × (e.flow_id ≢ f)))
unfolding reclaim_flow_buffers
reclaim_flow-Reclaims m f v indexed =
    let start = record m { flow_resources = Map.remove f m.flow_resources } in
    let ids = ids_of f m.flow_resources in
    let ready : IsConsistent start = record {
      table_valid = v.table_valid;
      legal = v.legal;
      charged = v.charged;
    } in
    let done = reclaim_flow_all-Remains ids start no_stats ready in
    (
      done.consistent,
      λ id e. (
        (λ h.
            let (old, missing) = (done.kept id e).0 h in
            (old, λ mine. absurd (ground (arith, missing, (indexed f id e old).1 mine)))),
        (λ h. (done.kept id e).1 (
          h.0,
          elim (Bool-cases (has_id id ids)) [
            | inl has ↦ absurd (h.1 ((indexed f id e h.0).0 has))
            | inr absent ↦ absent
          ],
        )),
      ),
    )
