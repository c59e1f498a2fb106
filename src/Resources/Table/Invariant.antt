-- ===== src/Resources/Table/Invariant.antt =====
-- Well-formedness of the slab of crates/torvyn-resources/src/table.rs, and what each operation does
-- to the entries that the handles reach.
use torvyn.Common.{
  ℕ, ◌+◌, ◌-◌, ◌*◌, ◌≤◌, ◌<◌, ◌≡◌, refl, sym, ◌∙◌, List, [], ◌++◌, arith, length, get_elem?, some,
  length-append, lt-length_of_some, get_elem?-append_left, returns, lt→ltb,
}
use torvyn.Common.Word.{u32_max}
use torvyn.Resources.Handle.{occupied, ResourceEntry, ResourceId, ok}
use torvyn.Resources.Table.{ResourceTable, fresh_slots, new, grow, get}
use torvyn.Resources.Table.FreeList.{
  Linked, occupancy, length-fresh_slots, occupancy-fresh_slots, Linked-fresh_slots,
}
use torvyn.Common.Indices.{length-range, Distinct-range, Distinct, range}

-- The free list runs through distinct vacant slots, and every slot is occupied or on it.
pub record Inv (t : ResourceTable) (free : List ℕ) : Type 0 where
  pub sized : length t.entries ≡ t.capacity
  pub some_room : 0 < t.capacity
  pub fits : t.capacity ≤ u32_max
  pub linked : Linked t.entries t.free_head free
  pub distinct : Distinct free
  pub counted : occupancy t.entries ≡ t.len
  pub covered : t.len + length free ≡ t.capacity

abbrev pub IsValid : ResourceTable → Type 0
IsValid t = (free : List ℕ) × Inv t free

-- A table with room for at least one entry, and for no more than a handle can name, is well formed.
pub new-IsValid :
    (n : ℕ) → 0 < n → n ≤ u32_max → (t : ResourceTable) × (new n ≡ returns t) × IsValid t
unfolding new
new-IsValid n pos fit = (
  record { entries = fresh_slots n 0 n; free_head = 0; len = 0; capacity = n },
  ground (arith, pos),
  (
    range 0 n,
    record {
      sized = length-fresh_slots n 0 n;
      some_room = pos;
      fits = fit;
      linked = rw (lt→ltb 0 n pos) at (Linked-fresh_slots [] n 0 n refl (omega arith));
      distinct = Distinct-range 0 n;
      counted = occupancy-fresh_slots [] n 0 n;
      covered = omega (arith, length-range 0 n);
    },
  ),
)

-- Every handle that reaches an entry before reaches it still.
abbrev pub Keeps : ResourceTable → ResourceTable → Type 0
Keeps t t' = (id : ResourceId) (e : ResourceEntry) → get t id ≡ ok e → get t' id ≡ ok e

pub get-occupied :
    (t : ResourceTable) (id : ResourceId) (e : ResourceEntry)
    → get t id ≡ ok e
    → (get_elem? t.entries id.index ≡ some (occupied e)) × (e.generation ≡ id.generation)
unfolding get
get-occupied t id e h = ground arith

pub occupied-get :
    (t : ResourceTable) (id : ResourceId) (e : ResourceEntry)
    → get_elem? t.entries id.index ≡ some (occupied e)
    → e.generation ≡ id.generation
    → get t id ≡ ok e
unfolding get
occupied-get t id e h g = ground arith

pub grow-Inv :
    (t : ResourceTable)
    → Inv t []
    → t.capacity * 2 ≤ u32_max
    → (t' : ResourceTable) × (grow t ≡ ok t')
      × Inv t' (range t.capacity (t.capacity * 2 - t.capacity))
      × Keeps t t'
      × (t'.len ≡ t.len)
unfolding grow
grow-Inv t v fit = (
  record t {
    entries = t.entries ++ fresh_slots (t.capacity * 2) t.capacity (t.capacity * 2 - t.capacity);
    free_head = t.capacity;
    capacity = t.capacity * 2;
  },
  ground arith,
  record {
    sized = omega (
      arith,
      length-append t.entries
          (fresh_slots (t.capacity * 2) t.capacity (t.capacity * 2 - t.capacity)),
      length-fresh_slots (t.capacity * 2) t.capacity (t.capacity * 2 - t.capacity),
      v.sized,
    );
    some_room = omega (arith, v.some_room);
    fits = fit;
    linked = rw (lt→ltb t.capacity (t.capacity * 2) (omega (arith, v.some_room))) at (
        Linked-fresh_slots t.entries (t.capacity * 2) t.capacity (t.capacity * 2 - t.capacity)
          (sym v.sized) (omega arith));
    distinct = Distinct-range t.capacity (t.capacity * 2 - t.capacity);
    counted = occupancy-fresh_slots t.entries _ _ _ ∙ v.counted;
    covered = omega (arith, v.covered, length-range t.capacity (t.capacity * 2 - t.capacity));
  },
  (λ id e h.
      let (here, gen) = get-occupied t id e h in
      occupied-get _ id e
        (get_elem?-append_left t.entries _ id.index (lt-length_of_some t.entries id.index here)
          ∙ here)
        gen),
  refl,
)
