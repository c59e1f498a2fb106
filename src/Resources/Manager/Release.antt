-- ===== src/Resources/Manager/Release.antt =====
-- `release` of crates/torvyn-resources/src/manager.rs.
use torvyn.Common.{◌+◌, ◌≡◌, ap, refl, subst, inl, inr}
use torvyn.Types.ResourceState.{pooled}
use torvyn.Resources.Handle.{
  ResourceEntry, ResourceId, OwnerId, Result, ok, err, ResourceError, Result-cases,
}
use torvyn.Resources.Ownership.Transitions.{IsFree, release_iff, refused_unless_free}
use torvyn.Resources.Table.{ResourceTable, get, put, remove}
use torvyn.Resources.Payload.{zero_payload}
use torvyn.Resources.Index.{index_drop, owner_drop}
use torvyn.Resources.Manager.{
  ResourceManager, release_for, return_buffer, retire, release_entry, release,
}
use torvyn.Resources.Manager.Charges.{owner_bytes, owned_bytes, Charges-ext, release_for-Charges}
use torvyn.Resources.Manager.Taking.{IsConsistent, Taken, put-remove-Taken}

-- The manager after a release that leaves the table `table`.
unfoldable pub freed :
    ResourceManager → ResourceTable → ResourceId → ResourceEntry → OwnerId → ResourceManager
unfolding release_for owner_drop index_drop retire
freed m table h e caller =
    retire
      (record m {
        table = table;
        component_resources = owner_drop caller h m.component_resources;
        budgets = release_for m.budgets caller e.payload_capacity;
        flow_resources = index_drop e.flow_id h m.flow_resources;
      })
      e

release-run :
    (m : ResourceManager) (table : ResourceTable) (h : ResourceId) (e : ResourceEntry)
    (caller : OwnerId)
    → get m.table h ≡ ok e
    → IsFree e caller
    → remove (put m.table h (record e { state = pooled })) h
      ≡ (table, ok (record e { state = pooled }))
    → release m h caller ≡ (freed m table h e caller, ok tt)
unfolding release release_entry freed
release-run m table h e caller here free removed =
    rw (here, release)
      (rw ((release_iff h e caller).0.1 free, release)
        (rw (removed, release_entry)
          (ap (λ (p : ResourceTable × Result ResourceEntry). (freed m p.0 h e caller, ok tt))
            removed)))

-- `retire` touches the memory and the pools alone.
pub retire-keeps :
    (m : ResourceManager) (e : ResourceEntry)
    → ((retire m e).table ≡ m.table)
      × ((retire m e).budgets ≡ m.budgets)
      × ((retire m e).memory ≡ zero_payload m.memory e.buffer_ptr e.payload_capacity)
unfolding retire return_buffer
retire-keeps m e = (refl, refl, refl)

-- On a consistent manager the owner of an unborrowed buffer releases it: its payload is zeroed, its handle is refused, all other
-- handles reach what they reached, and its owner alone is charged less, by its capacity; the manager stays consistent.
pub release-IsConsistent :
    (m : ResourceManager) (h : ResourceId) (e : ResourceEntry) (caller : OwnerId)
    → IsConsistent m
    → get m.table h ≡ ok e
    → IsFree e caller
    → (m' : ResourceManager) × (release m h caller ≡ (m', ok tt))
      × IsConsistent m'
      × Taken m.table h e m'.table
      × (m'.memory ≡ zero_payload m.memory e.buffer_ptr e.payload_capacity)
unfolding freed retire return_buffer
release-IsConsistent m h e caller v here free =
    let (table, removed, taken) =
      put-remove-Taken m.table h e (record e { state = pooled }) v.table_valid here refl in
    (
      freed m table h e caller,
      release-run m table h e caller here free removed,
      record {
        table_valid = taken.valid;
        legal = λ id d h'. v.legal id d (taken.nothing_new id d h').1;
        charged =
            release_for-Charges m.budgets (λ c. owned_bytes c table.entries) caller
              e.payload_capacity
              (Charges-ext m.budgets (λ c. owned_bytes c m.table.entries) _
                (λ c.
                  subst
                    (λ o.
                      owned_bytes c table.entries + owner_bytes c o e.payload_capacity
                      ≡ owned_bytes c m.table.entries)
                    free.1 (taken.uncharged c))
                v.charged);
      },
      taken,
      refl,
    )

-- Any other release fails and changes nothing: one through a handle that reaches no entry, with the
-- error of the table, and one of an entry that its caller does not own or that is borrowed.
pub release_refused :
    (m : ResourceManager) (h : ResourceId) (caller : OwnerId)
    → ((e : ResourceEntry) → get m.table h ≡ ok e → ¬ IsFree e caller)
    → (er : ResourceError) × (release m h caller ≡ (m, err er))
unfolding release
release_refused m h caller busy = elim (Result-cases (get m.table h)) [
  | inl (e, here) ↦
      let (er, refused, _) = refused_unless_free h e caller (busy e here) in
      (er, rw (here, release) (rw (refused, release) refl))
  | inr (er, stale) ↦ (er, rw (stale, release) refl)
]
