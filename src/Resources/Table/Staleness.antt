-- ===== src/Resources/Table/Staleness.antt =====
-- A handle that was removed stays refused: the generations of
-- crates/torvyn-resources/src/table.rs, over any sequence of operations.
use torvyn.Common.{
  ℕ, suc, ◌+◌, ◌≤◌, ◌≡◌, subst, ◌≢◌, List, arith, get_elem?-set_self, lt-length_of_some, returns,
}
use torvyn.Common.Word.{u32_max}
use torvyn.Resources.Handle.{
  slot_generation, is_occupied, Slot, vacant, ResourceEntry, ResourceId, Result, ok,
}
use torvyn.Resources.Table.{ResourceTable, insert, get, put, remove}
use torvyn.Resources.Table.Invariant.{get-occupied}
use torvyn.Resources.Table.Generation.{IsDead, IsDead-get, insert-IsDead, remove-IsDead, put-IsDead}

-- One operation on the table, whatever its outcome; the number counts the inserts. A write is one
-- through `get_mut`.
pub data Step (t t' : ResourceTable) : ℕ → Type 0 where
  inserting :
      (entry : ResourceEntry) (r : Result ResourceId)
      → insert t entry ≡ returns (t', r)
      → Step t t' 1
  removing : (id : ResourceId) → t' ≡ (remove t id).0 → Step t t' 0
  writing :
      (id : ResourceId) (e e' : ResourceEntry)
      → get t id ≡ ok e
      → e'.generation ≡ e.generation
      → t' ≡ put t id e'
      → Step t t' 0

pub data Steps (t : ResourceTable) : ℕ → ResourceTable → Type 0 where
  start : Steps t 0 t
  next : {n m : ℕ} {u v : ResourceTable} → Steps t n u → Step u v m → Steps t (m + n) v

at_age : {es : List Slot} {id : ResourceId} {n m : ℕ} → n ≡ m → IsDead es id n → IsDead es id m
at_age {es} {id} same d = subst (IsDead es id) same d

removed-IsDead :
    (t : ResourceTable) (id : ResourceId) (e : ResourceEntry)
    → id.generation ≤ u32_max
    → get t id ≡ ok e
    → IsDead (remove t id).0.entries id 0
unfolding remove slot_generation is_occupied
removed-IsDead t id e fit h =
    let (held, gen) = get-occupied t id e h in
    rw (h, remove)
      (record {
        slot = vacant t.free_head e.generation;
        there = get_elem?-set_self t.entries id.index _ (lt-length_of_some t.entries id.index held);
        age = 0;
        young = omega arith;
        aged = omega (arith, gen, fit);
        reused = λ f. cc;
      })

Step-IsDead :
    {t t' : ResourceTable} {m : ℕ} (id : ResourceId) (n : ℕ)
    → Step t t' m
    → IsDead t.entries id n
    → IsDead t'.entries id (m + n)
Step-IsDead {t} {t'} id n (inserting entry r ran) d =
    at_age {n = suc n} {m = 1 + n} (omega arith) (insert-IsDead t t' entry r id n ran d)
Step-IsDead {t} id n (removing id' same) d =
    rw same (at_age {n = n} {m = 0 + n} (omega arith) (remove-IsDead t id' id n d))
Step-IsDead {t} id n (writing id' e e' found gen same) d =
    rw same (at_age {n = n} {m = 0 + n} (omega arith) (put-IsDead t id' e e' id n found gen d))

Steps-IsDead :
    {t t' : ResourceTable} {m : ℕ} (id : ResourceId)
    → Steps t m t'
    → IsDead t.entries id 0
    → IsDead t'.entries id m
Steps-IsDead id start d = d
Steps-IsDead id (next steps step) d = Step-IsDead id _ step (Steps-IsDead id steps d)

-- A handle that `remove` has retired reaches no entry, whatever inserts, removals and writes follow, in
-- any order, while they hold fewer than 2^32 inserts: then the generation of its slot has come round.
pub removed-stays_stale :
    (t t' : ResourceTable) (id : ResourceId) (e e' : ResourceEntry) (n : ℕ)
    → id.generation ≤ u32_max
    → get t id ≡ ok e
    → Steps (remove t id).0 n t'
    → n ≤ u32_max
    → get t' id ≢ ok e'
removed-stays_stale t t' id e e' n fit h steps few =
    IsDead-get t' id n e' fit few (Steps-IsDead id steps (removed-IsDead t id e fit h))
