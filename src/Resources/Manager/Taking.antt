-- ===== src/Resources/Manager/Taking.antt =====
-- What every call of crates/torvyn-resources/src/manager.rs that frees an entry does to the table: it
-- writes the entry through `get_mut` and then removes it.
use torvyn.Common.{ℕ, ◌+◌, ◌≤◌, ◌≡◌, sym, subst, ap, ◌∙◌, ◌≢◌, arith, get_elem?, some}
use torvyn.Resources.Handle.{ResourceEntry, ResourceId, occupied, vacant, ok, err, not_allocated}
use torvyn.Resources.Table.{ResourceTable, get, put, remove}
use torvyn.Resources.Table.Invariant.{IsValid, get-occupied}
use torvyn.Resources.Table.Remove.{put-IsValid, remove-Removed}
use torvyn.Resources.Manager.{ResourceManager}
use torvyn.Resources.Manager.Charges.{owner_bytes, owned_bytes, owned_bytes-set, Charges}

-- A manager whose table is well formed, whose buffers have a legal size, and whose budgets charge each
-- registered component for exactly the buffers that it owns.
pub record IsConsistent (m : ResourceManager) : Type 0 where
  pub table_valid : IsValid m.table
  pub legal :
      (id : ResourceId) (e : ResourceEntry) → get m.table id ≡ ok e → e.payload_capacity ≤ 16777216
  pub charged : Charges m.budgets (λ c. owned_bytes c m.table.entries)

-- One slot holds one entry.
pub same-entry :
    (t : ResourceTable) (id id' : ResourceId) (e e' : ResourceEntry)
    → get t id ≡ ok e
    → get t id' ≡ ok e'
    → id.index ≡ id'.index
    → e ≡ e'
same-entry t id id' e e' h h' same =
    let here =
      subst (λ k. get_elem? t.entries k ≡ some (occupied e)) same (get-occupied t id e h).0 in
    cc (here, (get-occupied t id' e' h').0)

-- A table without the entry of one handle.
pub record Taken (t : ResourceTable) (id : ResourceId) (e : ResourceEntry) (t' : ResourceTable)
    : Type 0 where
  pub valid : IsValid t'
  pub gone : get t' id ≡ err (not_allocated id)
  pub others :
      (id' : ResourceId) (e' : ResourceEntry)
      → id'.index ≢ id.index
      → get t id' ≡ ok e'
      → get t' id' ≡ ok e'
  pub nothing_new :
      (id' : ResourceId) (e' : ResourceEntry)
      → get t' id' ≡ ok e'
      → (id'.index ≢ id.index) × (get t id' ≡ ok e')
  pub uncharged :
      (c : ℕ)
      → owned_bytes c t'.entries + owner_bytes c e.owner e.payload_capacity
        ≡ owned_bytes c t.entries

pub put-owned_bytes :
    (t : ResourceTable) (id : ResourceId) (e e' : ResourceEntry) (c : ℕ)
    → get t id ≡ ok e
    → owned_bytes c (put t id e').entries + owner_bytes c e.owner e.payload_capacity
      ≡ owned_bytes c t.entries + owner_bytes c e'.owner e'.payload_capacity
unfolding put
put-owned_bytes t id e e' c h =
    owned_bytes-set c t.entries id.index (occupied e) (occupied e') (get-occupied t id e h).0

remove-owned_bytes :
    (t : ResourceTable) (id : ResourceId) (e : ResourceEntry) (c : ℕ)
    → get t id ≡ ok e
    → owned_bytes c (remove t id).0.entries + owner_bytes c e.owner e.payload_capacity
      ≡ owned_bytes c t.entries
unfolding remove
remove-owned_bytes t id e c h =
    rw (h, remove)
      (owned_bytes-set c t.entries id.index (occupied e) (vacant t.free_head e.generation)
          (get-occupied t id e h).0
        ∙ omega arith)

-- A slot whose handle is not allocated is reached by no handle.
vacant-unreached :
    (t : ResourceTable) (id id' : ResourceId) (e : ResourceEntry)
    → get t id ≡ err (not_allocated id)
    → get t id' ≡ ok e
    → id'.index ≢ id.index
unfolding get
vacant-unreached t id id' e gone h same =
    let here : get_elem? t.entries id.index ≡ some (occupied e) =
      subst (λ k. get_elem? t.entries k ≡ some (occupied e)) same (get-occupied t id' e h).0 in
    ground (arith, here)

-- Writing an entry under its own generation and owner and then removing it takes its handle, and what
-- it was charged for, out of the table.
pub put-remove-Taken :
    (t : ResourceTable) (id : ResourceId) (e e' : ResourceEntry)
    → IsValid t
    → get t id ≡ ok e
    → e'.generation ≡ e.generation
    → (t' : ResourceTable) × (remove (put t id e') id ≡ (t', ok e')) × Taken t id e t'
put-remove-Taken t id e e' v h g =
    let (valid, reached, apart) = put-IsValid t id e e' v h g in
    let (t', ran, done) = remove-Removed (put t id e') id e' valid reached in
    (
      t',
      ran,
      record {
        valid = done.valid;
        gone = done.gone;
        others = λ id' d ne h'. done.others id' d ne (apart id' ne ∙ h');
        nothing_new = λ id' d h'.
            let ne = vacant-unreached t' id id' d done.gone h' in
            (ne, sym (apart id' ne) ∙ done.nothing_new id' d h');
        uncharged = λ c.
            let same : (remove (put t id e') id).0.entries ≡ t'.entries =
              ap (λ (p : ResourceTable × _). p.0.entries) ran in
            omega (
              arith,
              put-owned_bytes t id e e' c h,
              remove-owned_bytes (put t id e') id e' c reached,
              ap (owned_bytes c) same,
            );
      },
    )
