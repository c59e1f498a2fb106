-- ===== src/Resources/Table/Remove.antt =====
-- `remove` and the writes through `get_mut` of crates/torvyn-resources/src/table.rs on a well-formed
-- table.
use torvyn.Common.{
  index_cases, ℕ, ◌+◌, ◌-◌, ◌≡◌, refl, sym, subst, ◌∙◌, ◌≢◌, inl, inr, ◌∷◌, arith, get_elem?, set,
  some, length-set, get_elem?-set_ne, get_elem?-set_self, lt-length_of_some,
}
use torvyn.Resources.Handle.{occupied, vacant, ResourceEntry, ResourceId, ok, err, not_allocated}
use torvyn.Resources.Table.{ResourceTable, get, put, remove}
use torvyn.Resources.Table.FreeList.{
  Linked-set, Misses-of_occupied, occupancy-clear, occupancy-replace,
}
use torvyn.Resources.Table.Invariant.{IsValid, get-occupied, occupied-get}

vacant-get :
    (t : ResourceTable) (id : ResourceId) (n g : ℕ)
    → get_elem? t.entries id.index ≡ some (vacant n g)
    → get t id ≡ err (not_allocated id)
unfolding get
vacant-get t id n g h = rw (h, get) refl

get-same :
    (t u : ResourceTable) (id : ResourceId)
    → get_elem? t.entries id.index ≡ get_elem? u.entries id.index
    → get t id ≡ get u id
unfolding get
get-same t u id h = rw (h, get) refl

-- What a successful `remove` promises.
pub record Removed (t : ResourceTable) (id : ResourceId) (t' : ResourceTable) : Type 0 where
  pub valid : IsValid t'
  pub gone : get t' id ≡ err (not_allocated id)
  pub others :
      (id' : ResourceId) (e : ResourceEntry)
      → id'.index ≢ id.index
      → get t id' ≡ ok e
      → get t' id' ≡ ok e
  pub nothing_new : (id' : ResourceId) (e : ResourceEntry) → get t' id' ≡ ok e → get t id' ≡ ok e
  pub shorter : t.len ≡ t'.len + 1

-- `remove` through a handle that reaches an entry returns that entry and frees its slot: the table stays
-- well formed, the handle is refused as not allocated, all other handles reach what they reached, and
-- no handle reaches anything new.
pub remove-Removed :
    (t : ResourceTable) (id : ResourceId) (e : ResourceEntry)
    → IsValid t
    → get t id ≡ ok e
    → (t' : ResourceTable) × (remove t id ≡ (t', ok e)) × Removed t id t'
unfolding remove
remove-Removed t id e (free, v) h =
    let (here, gen) = get-occupied t id e h in
    let hole = vacant t.free_head e.generation in
    let t' = record t {
      entries = set t.entries id.index hole;
      free_head = id.index;
      len = t.len - 1;
    } in
    let inside = lt-length_of_some t.entries id.index here in
    let written = get_elem?-set_self t.entries id.index hole inside in
    let apart = Misses-of_occupied t.entries t.free_head free id.index e here v.linked in
    let fewer = occupancy-clear t.entries id.index t.free_head e.generation e here in
    (
      t',
      rw (h, remove) refl,
      record {
        valid = (
          id.index ∷ free,
          record {
            sized = length-set t.entries id.index hole ∙ v.sized;
            some_room = v.some_room;
            fits = v.fits;
            linked = (
              refl,
              (
                t.free_head,
                e.generation,
                written,
                Linked-set t.entries t.free_head free id.index hole apart v.linked,
              ),
            );
            distinct = (apart, v.distinct);
            counted = omega (arith, fewer, v.counted);
            covered = omega (arith, fewer, v.counted, v.covered);
          },
        );
        gone = vacant-get t' id t.free_head e.generation written;
        others = λ id' e' ne h'.
            let (old, gen') = get-occupied t id' e' h' in
            occupied-get t' id' e'
              (get_elem?-set_ne t.entries id.index id'.index hole (λ s. ne (sym s)) ∙ old) gen';
        nothing_new = λ id' e' h'.
            let (now, gen') = get-occupied t' id' e' h' in
            elim (index_cases id.index id'.index) [
              | inl same ↦ cc (subst (λ k. get_elem? t'.entries k ≡ some hole) same written, now)
              | inr differs ↦
                  occupied-get t id' e'
                    (sym (get_elem?-set_ne t.entries id.index id'.index hole differs) ∙ now) gen'
            ];
        shorter = omega (arith, fewer, v.counted);
      },
    )

-- A write through `get_mut` that keeps the generation: the handle reaches the new entry, every other
-- index what it reached, and the table stays well formed.
pub put-IsValid :
    (t : ResourceTable) (id : ResourceId) (e e' : ResourceEntry)
    → IsValid t
    → get t id ≡ ok e
    → e'.generation ≡ e.generation
    → IsValid (put t id e')
      × (get (put t id e') id ≡ ok e')
      × ((id' : ResourceId) → id'.index ≢ id.index → get (put t id e') id' ≡ get t id')
unfolding put
put-IsValid t id e e' (free, v) h g =
    let (here, gen) = get-occupied t id e h in
    let apart = Misses-of_occupied t.entries t.free_head free id.index e here v.linked in
    let inside = lt-length_of_some t.entries id.index here in
    (
      (
        free,
        record {
          sized = length-set t.entries id.index (occupied e') ∙ v.sized;
          some_room = v.some_room;
          fits = v.fits;
          linked = Linked-set t.entries t.free_head free id.index (occupied e') apart v.linked;
          distinct = v.distinct;
          counted = occupancy-replace t.entries id.index e e' here ∙ v.counted;
          covered = v.covered;
        },
      ),
      occupied-get _ id e' (get_elem?-set_self t.entries id.index (occupied e') inside) (g ∙ gen),
      λ id' ne.
          get-same _ t id'
            (get_elem?-set_ne t.entries id.index id'.index (occupied e') (λ s. ne (sym s))),
    )
