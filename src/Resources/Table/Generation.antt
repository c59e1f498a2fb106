-- ===== src/Resources/Table/Generation.antt =====
-- How far the generation of one slot of crates/torvyn-resources/src/table.rs has moved on since a
-- handle to it was retired.
use torvyn.Resources.Handle.{Result-cases}
use torvyn.Common.{
  index_cases, Option-cases, ℕ, suc, ◌+◌, ◌-◌, ◌*◌, ◌≤◌, ◌≡◌, refl, sym, subst, ◌∙◌, ◌≢◌, ◌⊎◌, inl,
  inr, true, List, ◌++◌, arith, get_elem?, set, some, get_elem?-set_ne, get_elem?-set_self,
  lt-length_of_some, ◌==◌, ap, get_elem?-append_left, returns, Bool-cases,
}
use torvyn.Common.Word.{u32, u32_max}
use torvyn.Resources.Handle.{
  slot_generation, is_occupied, Slot, occupied, vacant, ResourceEntry, ResourceId, Result, ok,
}
use torvyn.Resources.Table.{
  ResourceTable, free_list_end, fresh_slots, grow, insert_at, insert_free, insert, get, put, remove,
}
use torvyn.Resources.Table.Invariant.{get-occupied}

-- The slot of the handle has moved on by at most `n` generations, and by one at least if it is
-- occupied.
pub record IsDead (es : List Slot) (id : ResourceId) (n : ℕ) : Type 0 where
  pub slot : Slot
  pub there : get_elem? es id.index ≡ some slot
  pub age : ℕ
  pub young : age ≤ n
  pub aged : slot_generation slot ≡ u32 (id.generation + age)
  pub reused : is_occupied slot ≡ true → 1 ≤ age

occupied_moved_on :
    (s : Slot) (id : ResourceId) (k : ℕ) (e : ResourceEntry)
    → id.generation ≤ u32_max
    → k ≤ u32_max
    → slot_generation s ≡ u32 (id.generation + k)
    → (is_occupied s ≡ true → 1 ≤ k)
    → s ≡ occupied e
    → e.generation ≢ id.generation
unfolding slot_generation is_occupied
occupied_moved_on (occupied d) id k e fit few aged reused same gen = ground (arith, reused refl)
occupied_moved_on (vacant n g) id k e fit few aged reused same gen = cc

pub IsDead-get :
    (t : ResourceTable) (id : ResourceId) (n : ℕ) (e : ResourceEntry)
    → id.generation ≤ u32_max
    → n ≤ u32_max
    → IsDead t.entries id n
    → get t id ≢ ok e
IsDead-get t id n e fit few d h =
    let (now, gen) = get-occupied t id e h in
    occupied_moved_on d.slot id d.age e fit (omega (arith, few, d.young)) d.aged d.reused
      (cc (now, d.there)) gen

-- An insert that ran left the slots, or filled the vacant slot at the head of the free list.
abbrev Filled : ResourceTable → ResourceEntry → ResourceTable → Type 0
Filled t entry t' =
    (t'.entries ≡ t.entries)
    ⊎ ((m : ℕ) × (g : ℕ) × (get_elem? t.entries t.free_head ≡ some (vacant m g))
        × (t'.entries
            ≡ set t.entries t.free_head (occupied (record entry { generation = u32 (g + 1) }))))

insert_at_cases :
    (s : Slot) (t t' : ResourceTable) (entry : ResourceEntry) (r : Result ResourceId)
    → get_elem? t.entries t.free_head ≡ some s
    → insert_at s t entry ≡ (t', r)
    → Filled t entry t'
unfolding insert_at
insert_at_cases (vacant m g) t t' entry r found ran = inr (m, g, found, ground arith)
insert_at_cases (occupied e) t t' entry r found ran = inl (ground arith)

insert_free_cases :
    (t t' : ResourceTable) (entry : ResourceEntry) (r : Result ResourceId)
    → insert_free t entry ≡ returns (t', r)
    → Filled t entry t'
unfolding insert_free
insert_free_cases t t' entry r ran = elim (Option-cases (get_elem? t.entries t.free_head)) [
  | inl missing ↦ absurd (ground (arith, missing))
  | inr (slot, found) ↦
      insert_at_cases slot t t' entry r found (cc (rw (found, insert_free) at ran))
]

older : {es : List Slot} {id : ResourceId} {n : ℕ} → IsDead es id n → IsDead es id (suc n)
older c = record {
  slot = c.slot;
  there = c.there;
  age = c.age;
  young = omega (arith, c.young);
  aged = c.aged;
  reused = c.reused;
}

write-IsDead :
    (es : List Slot) (i : ℕ) (s : Slot) (id : ResourceId) (n : ℕ)
    → i ≢ id.index
    → IsDead es id n
    → IsDead (set es i s) id n
write-IsDead es i s id n ne d = record {
  slot = d.slot;
  there = get_elem?-set_ne es i id.index s ne ∙ d.there;
  age = d.age;
  young = d.young;
  aged = d.aged;
  reused = d.reused;
}

fill-IsDead :
    (es : List Slot) (i m g : ℕ) (entry : ResourceEntry) (id : ResourceId) (n : ℕ)
    → get_elem? es i ≡ some (vacant m g)
    → IsDead es id n
    → IsDead (set es i (occupied (record entry { generation = u32 (g + 1) }))) id (suc n)
unfolding slot_generation is_occupied
fill-IsDead es i m g entry id n held d = elim (index_cases i id.index) [
  | inl same ↦ record {
    slot = occupied (record entry { generation = u32 (g + 1) });
    there = rw (← same) (get_elem?-set_self es i _ (lt-length_of_some es i held));
    age = suc d.age;
    young = omega (arith, d.young);
    aged =
        let vac : d.slot ≡ vacant m g =
          cc (d.there, subst (λ k. get_elem? es k ≡ some (vacant m g)) same held) in
        let old : g ≡ u32 (id.generation + d.age) = sym (ap slot_generation vac) ∙ d.aged in
        omega (arith, old);
    reused = λ _. omega arith;
  }
  | inr differs ↦ older (write-IsDead es i _ id n differs d)
]

insert_free-IsDead :
    (t t' : ResourceTable) (entry : ResourceEntry) (r : Result ResourceId) (id : ResourceId) (n : ℕ)
    → insert_free t entry ≡ returns (t', r)
    → IsDead t.entries id n
    → IsDead t'.entries id (suc n)
insert_free-IsDead t t' entry r id n ran d = elim (insert_free_cases t t' entry r ran) [
  | inl same ↦ rw same (older d)
  | inr (m, g, found, filled) ↦ rw filled (fill-IsDead t.entries t.free_head m g entry id n found d)
]

grow-IsDead :
    (t g : ResourceTable) (id : ResourceId) (n : ℕ)
    → grow t ≡ ok g
    → IsDead t.entries id n
    → IsDead g.entries id n
unfolding grow
grow-IsDead t g id n grown d = record {
  slot = d.slot;
  there =
      let all : g.entries
          ≡ t.entries ++ fresh_slots (t.capacity * 2) t.capacity (t.capacity * 2 - t.capacity) =
        ground arith in
      rw all (
        get_elem?-append_left t.entries _ id.index (lt-length_of_some t.entries id.index d.there)
        ∙ d.there);
  age = d.age;
  young = d.young;
  aged = d.aged;
  reused = d.reused;
}

pub insert-IsDead :
    (t t' : ResourceTable) (entry : ResourceEntry) (r : Result ResourceId) (id : ResourceId) (n : ℕ)
    → insert t entry ≡ returns (t', r)
    → IsDead t.entries id n
    → IsDead t'.entries id (suc n)
unfolding insert
insert-IsDead t t' entry r id n ran d = elim (Bool-cases (t.free_head == free_list_end)) [
  | inr direct ↦ insert_free-IsDead t t' entry r id n (rw (direct, insert) at ran) d
  | inl full ↦ elim (Result-cases (grow t)) [
    | inl (g, grown) ↦
        insert_free-IsDead g t' entry r id n (ground (arith, grown)) (grow-IsDead t g id n grown d)
    | inr (e, failed) ↦ let same : t' ≡ t = ground (arith, failed) in rw same (older d)
  ]
]

-- A slot rewritten under the generation that its entry had.
rewrite-IsDead :
    (es : List Slot) (i : ℕ) (e : ResourceEntry) (s : Slot) (id : ResourceId) (n : ℕ)
    → get_elem? es i ≡ some (occupied e)
    → slot_generation s ≡ e.generation
    → IsDead es id n
    → IsDead (set es i s) id n
unfolding slot_generation is_occupied
rewrite-IsDead es i e s id n held gen d = elim (index_cases i id.index) [
  | inr differs ↦ write-IsDead es i s id n differs d
  | inl same ↦
      let old : d.slot ≡ occupied e =
        cc (d.there, subst (λ k. get_elem? es k ≡ some (occupied e)) same held) in
      record {
        slot = s;
        there = rw (← same) (get_elem?-set_self es i s (lt-length_of_some es i held));
        age = d.age;
        young = d.young;
        aged = gen ∙ sym (ap slot_generation old) ∙ d.aged;
        reused = λ _. d.reused (ap is_occupied old);
      }
]

pub remove-IsDead :
    (t : ResourceTable) (id' : ResourceId) (id : ResourceId) (n : ℕ)
    → IsDead t.entries id n
    → IsDead (remove t id').0.entries id n
unfolding remove slot_generation
remove-IsDead t id' id n d = elim (Result-cases (get t id')) [
  | inl (e, found) ↦
      rw (found, remove)
        (rewrite-IsDead t.entries id'.index e (vacant t.free_head e.generation) id n
          (get-occupied t id' e found).0 refl d)
  | inr (e, failed) ↦ rw (failed, remove) d
]

pub put-IsDead :
    (t : ResourceTable) (id' : ResourceId) (e e' : ResourceEntry) (id : ResourceId) (n : ℕ)
    → get t id' ≡ ok e
    → e'.generation ≡ e.generation
    → IsDead t.entries id n
    → IsDead (put t id' e').entries id n
unfolding put slot_generation
put-IsDead t id' e e' id n h g d =
    rewrite-IsDead t.entries id'.index e (occupied e') id n (get-occupied t id' e h).0 g d
