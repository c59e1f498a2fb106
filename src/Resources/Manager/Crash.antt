-- ===== src/Resources/Manager/Crash.antt =====
-- `force_reclaim` of crates/torvyn-resources/src/manager.rs.
use torvyn.Common.{
  ℕ, ◌≡◌, refl, ◌↔◌, ◌≢◌, Bool-cases, true, List, [], ◌∷◌, arith, inl, inr, ◌+◌, sym, ap, none,
  subst,
}
use torvyn.Common.Map
use torvyn.Common.Map.{lookup-remove}
use torvyn.Types.ResourceState.{owned}
use torvyn.Resources.Handle.{
  ResourceId, host, component, ResourceEntry, ok, err, Result, ResourceError, Result-cases,
}
use torvyn.Resources.Table.{ResourceTable, get, put, remove}
use torvyn.Resources.Budget.{BudgetRegistry, unregister}
use torvyn.Resources.Index.{has_id, ids_of, index_drop, same_id_iff}
use torvyn.Resources.Manager.{ResourceManager, retire}
use torvyn.Resources.Manager.Reclaim.{reclaim_one, reclaim_all, force_reclaim}
use torvyn.Resources.Manager.Charges.{Charges, owned_bytes, owner_bytes}
use torvyn.Resources.Manager.Keeping.{
  LeavesOut, Taken-LeavesOut, stale-LeavesOut, nil-LeavesOut, cons-LeavesOut,
}
use torvyn.Resources.Manager.Taking.{IsConsistent, put-remove-Taken}

-- The component index names exactly the buffers that each component owns, beside stale handles.
abbrev pub IsIndexed : ResourceManager → Type 0
IsIndexed m =
    (c : ℕ) (id : ResourceId) (e : ResourceEntry)
    → get m.table id ≡ ok e
    → (has_id id (ids_of c m.component_resources) ≡ true) ↔ (e.owner ≡ component c)

-- What remains after the buffers of `ids` are reclaimed from component `c`.
record Remains (c : ℕ) (ids : List ResourceId) (m m' : ResourceManager) : Type 0 where
  consistent : IsConsistent (record m' { budgets = unregister m'.budgets c })
  kept : LeavesOut ids m.table m'.table

-- Charges that leave out component `c` do not see its buffers go.
Charges-without :
    (r : BudgetRegistry) (c : ℕ) (held held' : ℕ → ℕ) (bytes : ℕ)
    → Charges (unregister r c) held
    → ((d : ℕ) → held' d + owner_bytes d (component c) bytes ≡ held d)
    → Charges (unregister r c) held'
unfolding unregister
Charges-without r c held held' bytes v less d b h =
    ground (arith, v d b, less d, lookup-remove c d r.budgets)

unregister-Charges :
    (r : BudgetRegistry) (c : ℕ) (held : ℕ → ℕ) → Charges r held → Charges (unregister r c) held
unfolding unregister
unregister-Charges r c held v d b h = ground (arith, v d b, lookup-remove c d r.budgets)

lookup-unregister : (r : BudgetRegistry) (c : ℕ) → Map.lookup c (unregister r c).budgets ≡ none
unfolding unregister
lookup-unregister r c = ground (arith, lookup-remove c c r.budgets)

-- The manager after an entry of the table was reclaimed.
unfoldable reclaimed_from :
    ResourceManager → ResourceTable → ResourceId → ResourceEntry → ResourceManager
unfolding retire index_drop
reclaimed_from m table id e =
    retire (record m { table = table; flow_resources = index_drop e.flow_id id m.flow_resources }) e

reclaim_one-live :
    (m : ResourceManager) (table : ResourceTable) (id : ResourceId) (e : ResourceEntry)
    → get m.table id ≡ ok e
    → remove (put m.table id (record e { borrow_count = 0; state = owned; owner = host })) id
      ≡ (table, ok (record e { borrow_count = 0; state = owned; owner = host }))
    → (reclaim_one m id).0 ≡ reclaimed_from m table id e
unfolding reclaim_one reclaimed_from
reclaim_one-live m table id e here removed =
    rw (here, reclaim_one)
      (rw (removed, reclaim_one)
        (ap (λ (p : ResourceTable × Result ResourceEntry). reclaimed_from m p.0 id e) removed))

reclaim_one-stale :
    (m : ResourceManager) (id : ResourceId) (er : ResourceError)
    → get m.table id ≡ err er
    → (reclaim_one m id).0 ≡ m
unfolding reclaim_one
reclaim_one-stale m id er h = rw (h, reclaim_one) refl

reclaim_one-Remains :
    (c : ℕ) (m : ResourceManager) (id : ResourceId)
    → IsConsistent (record m { budgets = unregister m.budgets c })
    → ((e : ResourceEntry) → get m.table id ≡ ok e → e.owner ≡ component c)
    → Remains c (id ∷ []) m (reclaim_one m id).0
unfolding reclaimed_from retire has_id
reclaim_one-Remains c m id v mine = elim (Result-cases (get m.table id)) [
  | inl (e, here) ↦
      let (table, removed, taken) =
        put-remove-Taken m.table id e (record e { borrow_count = 0; state = owned; owner = host })
          v.table_valid here refl in
      subst (λ x. Remains c (id ∷ []) m x) (sym (reclaim_one-live m table id e here removed))
        (record {
          consistent = record {
            table_valid = taken.valid;
            legal = λ i d h'. v.legal i d (taken.nothing_new i d h').1;
            charged = Charges-without m.budgets c _ _ e.payload_capacity v.charged (λ d.
                subst
                  (λ o.
                    owned_bytes d table.entries + owner_bytes d o e.payload_capacity
                    ≡ owned_bytes d m.table.entries)
                  (mine e here) (taken.uncharged d));
          };
          kept = Taken-LeavesOut m.table table id e here taken;
        })
  | inr (er, stale) ↦
      subst (λ x. Remains c (id ∷ []) m x) (sym (reclaim_one-stale m id er stale))
        (record { consistent = v; kept = stale-LeavesOut m.table id er stale })
]

reclaim_all-Remains :
    (c : ℕ) (ids : List ResourceId) (m : ResourceManager)
    → IsConsistent (record m { budgets = unregister m.budgets c })
    → ((id : ResourceId) (e : ResourceEntry)
        → has_id id ids ≡ true
        → get m.table id ≡ ok e
        → e.owner ≡ component c)
    → Remains c ids m (reclaim_all m ids).0
unfolding reclaim_all has_id
reclaim_all-Remains c [] m v mine = record { consistent = v; kept = nil-LeavesOut m.table }
reclaim_all-Remains c (i ∷ ids) m v mine =
    let step =
      reclaim_one-Remains c m i v (λ e h. mine i e (ground (arith, (same_id_iff i i).1 refl)) h) in
    let rest =
      reclaim_all-Remains c ids (reclaim_one m i).0 step.consistent
        (λ id e has h. mine id e (ground (arith, has)) ((step.kept id e).0 h).0) in
    record {
      consistent = rest.consistent;
      kept = cons-LeavesOut m.table _ _ i ids step.kept rest.kept;
    }

-- After the clean-up of a crashed component on a consistent manager no handle reaches a buffer that it owned, whether borrowed
-- or not, and every other handle reaches what it reached; the component has no budget any more, and
-- every other one is charged for exactly what it owns. The component index must be right before.
pub force_reclaim-Reclaims :
    (m : ResourceManager) (c : ℕ)
    → IsConsistent m
    → IsIndexed m
    → IsConsistent (force_reclaim m c).0
      × ((id : ResourceId) (e : ResourceEntry)
          → (get (force_reclaim m c).0.table id ≡ ok e)
            ↔ ((get m.table id ≡ ok e) × (e.owner ≢ component c)))
      × (Map.lookup c (force_reclaim m c).0.budgets.budgets ≡ none)
unfolding force_reclaim
force_reclaim-Reclaims m c v indexed =
    let start = record m { component_resources = Map.remove c m.component_resources } in
    let ids = ids_of c m.component_resources in
    let done =
      reclaim_all-Remains c ids start
        (record {
          table_valid = v.table_valid;
          legal = v.legal;
          charged = unregister-Charges m.budgets c _ v.charged;
        })
        (λ id e has h. (indexed c id e h).0 has) in
    (
      done.consistent,
      (λ id e. (
        (λ h.
            let (old, missing) = (done.kept id e).0 h in
            (old, λ mine. absurd (ground (arith, missing, (indexed c id e old).1 mine)))),
        (λ h. (done.kept id e).1 (
          h.0,
          elim (Bool-cases (has_id id ids)) [
            | inl has ↦ absurd (h.1 ((indexed c id e h.0).0 has))
            | inr absent ↦ absent
          ],
        )),
      )),
      lookup-unregister (reclaim_all start ids).0.budgets c,
    )
