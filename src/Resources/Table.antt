-- ===== src/Resources/Table.antt =====
-- crates/torvyn-resources/src/table.rs: the generational slab of resource entries. A handle is its
-- ResourceId. `entries[i]` out of bounds and the failed `assert!` of `new` are panics; an operation
-- that fails returns the table as the call left it.
pub mod FreeList
pub mod Invariant
pub mod Insert
pub mod Remove
pub mod Generation
pub mod Staleness
mod Tests
use torvyn.Common.{
  ℕ, zero, suc, ◌+◌, ◌-◌, ◌*◌, Bool, true, false, Option, none, some, List, [], ◌∷◌, ◌++◌, length,
  get_elem?, set, ltb, leb, ◌==◌, if◌then◌else◌, Run, returns, panics,
}
use torvyn.Common.Word.{u32, u32_max}
use torvyn.Resources.Handle.{
  ResourceId, ResourceEntry, Slot, occupied, vacant, ResourceError, stale_handle, not_allocated,
  allocation_failed, Result, ok, err,
}

abbrev pub free_list_end : ℕ
free_list_end = u32_max

pub record ResourceTable : Type 0 where
  pub entries : List Slot
  pub free_head : ℕ  -- u32
  pub len : ℕ  -- u32
  pub capacity : ℕ  -- u32

-- The slots that the loops of `new` and `grow` push below `end`: `n` of them, from index `i` on.
unfoldable pub fresh_slots : (end i n : ℕ) → List Slot
fresh_slots end i zero = []
fresh_slots end i (suc n) =
    vacant (if ltb (i + 1) end then i + 1 else free_list_end) 0 ∷ fresh_slots end (i + 1) n

unfoldable pub new : ℕ → Run ResourceTable
unfolding fresh_slots
new initial_capacity =
    if ltb 0 initial_capacity
    then returns (record {
      entries = fresh_slots initial_capacity 0 initial_capacity;
      free_head = 0;
      len = 0;
      capacity = initial_capacity;
    })
    else panics

-- `checked_mul(2)` on `u32` guards the growth.
unfoldable pub grow : ResourceTable → Result ResourceTable
unfolding fresh_slots
grow t =
    if leb (t.capacity * 2) u32_max
    then ok (record t {
      entries = t.entries ++ fresh_slots (t.capacity * 2) t.capacity (t.capacity * 2 - t.capacity);
      free_head = t.capacity;
      capacity = t.capacity * 2;
    })
    else err (allocation_failed 0)

insert_at : Slot → ResourceTable → ResourceEntry → ResourceTable × Result ResourceId
insert_at (vacant next_free generation) t entry =
    let g = u32 (generation + 1) in
    (
      record t {
        entries = set t.entries t.free_head (occupied (record entry { generation = g }));
        free_head = next_free;
        len = t.len + 1;
      },
      ok (record { index = t.free_head; generation = g }),
    )
insert_at (occupied e) t entry = (t, err (allocation_failed 0))

-- `insert` after the free list has been seen to.
unfoldable pub insert_free : ResourceTable → ResourceEntry → Run (ResourceTable × Result ResourceId)
unfolding insert_at
insert_free t entry = elim (get_elem? t.entries t.free_head) [
  | none ↦ panics
  | some slot ↦ returns (insert_at slot t entry)
]

unfoldable pub insert : ResourceTable → ResourceEntry → Run (ResourceTable × Result ResourceId)
insert t entry =
    if t.free_head == free_list_end
    then (elim (grow t) [ ok grown ↦ insert_free grown entry | err e ↦ returns (t, err e) ])
    else insert_free t entry

-- The checks that `get`, `get_mut` and `remove` make.
validate : Option Slot → ResourceId → Result ResourceEntry
validate none id = err (stale_handle id)
validate (some (occupied entry)) id =
    if entry.generation == id.generation then ok entry else err (stale_handle id)
validate (some (vacant n g)) id = err (not_allocated id)

unfoldable pub get : ResourceTable → ResourceId → Result ResourceEntry
unfolding validate
get t id = validate (get_elem? t.entries id.index) id

-- A change made to the entry that `get_mut` returns.
unfoldable pub put : ResourceTable → ResourceId → ResourceEntry → ResourceTable
put t id entry = record t { entries = set t.entries id.index (occupied entry) }

unfoldable pub remove : ResourceTable → ResourceId → ResourceTable × Result ResourceEntry
remove t id = elim (get t id) [
  | ok entry ↦ (
    record t {
      entries = set t.entries id.index (vacant t.free_head entry.generation);
      free_head = id.index;
      len = t.len - 1;
    },
    ok entry,
  )
  | err e ↦ (t, err e)
]

-- `iter`: the live entries with their identifiers, by index.
unfoldable pub live_from : ℕ → List Slot → List (ResourceId × ResourceEntry)
live_from i [] = []
live_from i (occupied e ∷ slots) =
    (record { index = i; generation = e.generation }, e) ∷ live_from (i + 1) slots
live_from i (vacant n g ∷ slots) = live_from (i + 1) slots

unfoldable pub iter : ResourceTable → List (ResourceId × ResourceEntry)
unfolding live_from
iter t = live_from 0 t.entries
