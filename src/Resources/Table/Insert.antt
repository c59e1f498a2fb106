-- ===== src/Resources/Table/Insert.antt =====
-- `insert` of crates/torvyn-resources/src/table.rs on a well-formed table.
use torvyn.Common.{
  ℕ, zero, suc, ◌+◌, ◌-◌, ◌*◌, ◌<◌, ◌≡◌, refl, sym, subst, ◌∙◌, ◌≢◌, ◌⊎◌, inl, inr, List, [], ◌∷◌,
  arith, get_elem?, set, some, length-set, get_elem?-set_ne, get_elem?-set_self, lt-length_of_some,
  leb, ap, returns, Bool-cases, leb→le,
}
use torvyn.Common.Word.{u32, u32_max}
use torvyn.Resources.Handle.{
  occupied, vacant, ResourceEntry, ResourceId, ok, err, allocation_failed,
}
use torvyn.Resources.Table.{ResourceTable, grow, insert_free, insert, get}
use torvyn.Resources.Table.FreeList.{Linked-set, occupancy-fill}
use torvyn.Common.Indices.{range}
use torvyn.Resources.Table.Invariant.{Inv, IsValid, Keeps, get-occupied, occupied-get, grow-Inv}

-- What a successful `insert` promises of the table and the handle that it returns.
pub record Inserted (t : ResourceTable) (entry : ResourceEntry) (t' : ResourceTable)
    (id : ResourceId) : Type 0 where
  pub valid : IsValid t'
  pub reached : get t' id ≡ ok (record entry { generation = id.generation })
  pub unused : (e : ResourceEntry) → get t id ≢ ok e
  pub kept : Keeps t t'
  pub longer : t'.len ≡ t.len + 1

insert_free-Inserted :
    (t : ResourceTable) (i : ℕ) (free : List ℕ) (entry : ResourceEntry)
    → Inv t (i ∷ free)
    → (t' : ResourceTable) × (id : ResourceId) × (insert_free t entry ≡ returns (t', ok id))
      × Inserted t entry t' id
unfolding insert_free
insert_free-Inserted t i free entry v =
    let (at, (next, g, here, rest)) = v.linked in
    let e = record entry { generation = u32 (g + 1) } in
    let head = subst (λ k. get_elem? t.entries k ≡ some (vacant next g)) (sym at) here in
    let t' = record t {
      entries = set t.entries t.free_head (occupied e);
      free_head = next;
      len = t.len + 1;
    } in
    let id : ResourceId = record { index = t.free_head; generation = u32 (g + 1) } in
    (
      t',
      id,
      rw (head, insert_free) refl,
      record {
        valid = (
          free,
          record {
            sized = length-set t.entries t.free_head (occupied e) ∙ v.sized;
            some_room = v.some_room;
            fits = v.fits;
            linked = rw at (Linked-set t.entries next free i (occupied e) v.distinct.0 rest);
            distinct = v.distinct.1;
            counted = rw at (occupancy-fill t.entries i next g e here ∙ omega (arith, v.counted));
            covered = omega (arith, v.covered);
          },
        );
        reached =
            occupied-get t' id e
              (get_elem?-set_self t.entries t.free_head (occupied e)
                (lt-length_of_some t.entries t.free_head head))
              refl;
        unused = λ e' h. let (old, gen) = get-occupied t id e' h in cc (old, head);
        kept = λ id' e' h.
            let (old, gen) = get-occupied t id' e' h in
            occupied-get t' id' e'
              (get_elem?-set_ne t.entries t.free_head id'.index (occupied e) (λ same.
                  cc (subst (λ k. get_elem? t.entries k ≡ some (vacant next g)) same head, old))
                ∙ old)
              gen;
        longer = refl;
      },
    )

insert_free-grown :
    (t g : ResourceTable) (i n : ℕ) (entry : ResourceEntry)
    → Inv g (range i n)
    → 0 < n
    → Keeps t g
    → g.len ≡ t.len
    → (t' : ResourceTable) × (id : ResourceId) × (insert_free g entry ≡ returns (t', ok id))
      × Inserted t entry t' id
insert_free-grown t g i zero entry v pos keep same = elim pos [ ]
insert_free-grown t g i (suc n) entry v pos keep same =
    let (t', id, ran, done) = insert_free-Inserted g i (range (i + 1) n) entry v in
    (
      t',
      id,
      ran,
      record {
        valid = done.valid;
        reached = done.reached;
        unused = λ e h. done.unused e (keep id e h);
        kept = λ id' e h. done.kept id' e (keep id' e h);
        longer = done.longer ∙ ap (λ n. n + 1) same;
      },
    )

grow-full : (t : ResourceTable) → u32_max < t.capacity * 2 → grow t ≡ err (allocation_failed 0)
unfolding grow
grow-full t h = ground arith

-- `insert` on a well-formed table neither panics nor breaks it. It fails, and changes nothing, only
-- when every slot is occupied and the doubled capacity would not fit 32 bits. Else it returns a handle
-- that no entry had, which reaches the entry under the handle's generation; every handle that reached
-- an entry reaches it still.
pub insert-Inserted :
    (t : ResourceTable) (entry : ResourceEntry)
    → IsValid t
    → ((t.len ≡ t.capacity)
        × (u32_max < t.capacity * 2)
        × (insert t entry ≡ returns (t, err (allocation_failed 0))))
      ⊎ ((t' : ResourceTable) × (id : ResourceId) × (insert t entry ≡ returns (t', ok id))
          × Inserted t entry t' id)
unfolding insert
insert-Inserted t entry ([], v) = elim (Bool-cases (leb (t.capacity * 2) u32_max)) [
  | inl room ↦
      let (g, grown, vg, keep, same) = grow-Inv t v (leb→le _ _ room) in
      let (t', id, ran, done) =
        insert_free-grown t g t.capacity (t.capacity * 2 - t.capacity) entry vg
          (omega (arith, v.some_room)) keep same in
      inr (t', id, ground (arith, v.linked, grown, ran), done)
  | inr full ↦
      let over : u32_max < t.capacity * 2 = ground arith in
      inl (omega (arith, v.covered), over, ground (arith, v.linked, grow-full t over))
]
insert-Inserted t entry (i ∷ free, v) =
    let (t', id, ran, done) = insert_free-Inserted t i free entry v in
    inr (
      t',
      id,
      ground (arith, v.linked.0, lt-length_of_some t.entries i v.linked.1.2, v.sized, v.fits, ran),
      done,
    )
