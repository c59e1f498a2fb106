-- ===== src/Resources/Manager/Entering.antt =====
-- What `insert` of crates/torvyn-resources/src/table.rs does to the bytes that the components own, and
-- to the sizes of the buffers in the table.
use torvyn.Resources.Manager.Charges.{owner_bytes, owned_bytes, owned_bytes-set, owned_bytes-grow}
use torvyn.Common.{
  ap, ℕ, zero, suc, ◌+◌, ◌-◌, ◌*◌, ◌≤◌, ◌≡◌, refl, sym, subst, inl, inr, arith, List, [], ◌∷◌, ◌++◌,
  get_elem?, set, some, returns, Option-cases, Bool-cases, ◌==◌,
}
use torvyn.Common.Word.{u32}
use torvyn.Resources.Handle.{ResourceEntry, ResourceId, Slot, occupied, vacant, Result-cases, ok}
use torvyn.Resources.Table.{
  ResourceTable, free_list_end, fresh_slots, get, insert_free, grow, insert,
}
use torvyn.Resources.Table.Invariant.{get-occupied, occupied-get}

abbrev IsLegal : List Slot → Type 0
IsLegal es =
    (i : ℕ) (e : ResourceEntry) → get_elem? es i ≡ some (occupied e) → e.payload_capacity ≤ 16777216

IsLegal-set :
    (es : List Slot) (k : ℕ) (e : ResourceEntry)
    → IsLegal es
    → e.payload_capacity ≤ 16777216
    → IsLegal (set es k (occupied e))
IsLegal-set [] k e v small i d h = ground arith
IsLegal-set (s ∷ es) zero e v small zero d h = ground arith
IsLegal-set (s ∷ es) zero e v small (suc i) d h = v (suc i) d h
IsLegal-set (s ∷ es) (suc k) e v small zero d h = v zero d h
IsLegal-set (s ∷ es) (suc k) e v small (suc i) d h = IsLegal-set es k e (λ j. v (suc j)) small i d h

IsLegal-fresh : (end j n : ℕ) → IsLegal (fresh_slots end j n)
unfolding fresh_slots
IsLegal-fresh end j zero i d h = ground arith
IsLegal-fresh end j (suc n) zero d h = ground arith
IsLegal-fresh end j (suc n) (suc i) d h = IsLegal-fresh end (j + 1) n i d h

IsLegal-grow : (es : List Slot) (end j n : ℕ) → IsLegal es → IsLegal (es ++ fresh_slots end j n)
IsLegal-grow [] end j n v i d h = IsLegal-fresh end j n i d h
IsLegal-grow (s ∷ es) end j n v zero d h = v zero d h
IsLegal-grow (s ∷ es) end j n v (suc i) d h = IsLegal-grow es end j n (λ k. v (suc k)) i d h

insert_free-IsLegal :
    (t t' : ResourceTable) (entry : ResourceEntry) (id : ResourceId)
    → insert_free t entry ≡ returns (t', ok id)
    → entry.payload_capacity ≤ 16777216
    → IsLegal t.entries
    → IsLegal t'.entries
unfolding insert_free
insert_free-IsLegal t t' entry id ran small v =
    elim (Option-cases (get_elem? t.entries t.free_head)) [
      | inl out ↦ absurd (ground (arith, out, ran))
      | inr (occupied e, here) ↦ absurd (ground (arith, here, ran))
      | inr (vacant n g, here) ↦
          let filled = record entry { generation = u32 (g + 1) } in
          let same : t'.entries ≡ set t.entries t.free_head (occupied filled) =
            ground (arith, here, ran) in
          subst IsLegal (sym same) (IsLegal-set t.entries t.free_head filled v small)
    ]

grow-IsLegal : (t g : ResourceTable) → grow t ≡ ok g → IsLegal t.entries → IsLegal g.entries
unfolding grow
grow-IsLegal t g grown v =
    let more = fresh_slots (t.capacity * 2) t.capacity (t.capacity * 2 - t.capacity) in
    let same : g.entries ≡ t.entries ++ more = ground (arith, grown) in
    subst IsLegal (sym same)
      (IsLegal-grow t.entries (t.capacity * 2) t.capacity (t.capacity * 2 - t.capacity) v)

insert-IsLegal :
    (t t' : ResourceTable) (entry : ResourceEntry) (id : ResourceId)
    → insert t entry ≡ returns (t', ok id)
    → entry.payload_capacity ≤ 16777216
    → IsLegal t.entries
    → IsLegal t'.entries
unfolding insert
insert-IsLegal t t' entry id ran small v = elim (Bool-cases (t.free_head == free_list_end)) [
  | inl none_free ↦ elim (Result-cases (grow t)) [
    | inl (g, grown) ↦
        insert_free-IsLegal g t' entry id (ground (arith, none_free, grown, ran)) small
          (grow-IsLegal t g grown v)
    | inr (er, full) ↦ absurd (ground (arith, none_free, full, ran))
  ]
  | inr some_free ↦ insert_free-IsLegal t t' entry id (ground (arith, some_free, ran)) small v
]

-- A table of buffers of legal sizes stays one when one more is inserted.
pub insert-legal :
    (t t' : ResourceTable) (entry : ResourceEntry) (id : ResourceId)
    → insert t entry ≡ returns (t', ok id)
    → entry.payload_capacity ≤ 16777216
    → ((i : ResourceId) (e : ResourceEntry) → get t i ≡ ok e → e.payload_capacity ≤ 16777216)
    → (i : ResourceId) (e : ResourceEntry) → get t' i ≡ ok e
    → e.payload_capacity ≤ 16777216
insert-legal t t' entry id ran small legal i e h =
    insert-IsLegal t t' entry id ran small
      (λ k d at.
        legal (record { index = k; generation = d.generation }) d (occupied-get t _ d at refl))
      i.index e (get-occupied t' i e h).0

insert_free-owned_bytes :
    (t t' : ResourceTable) (entry : ResourceEntry) (id : ResourceId) (c : ℕ)
    → insert_free t entry ≡ returns (t', ok id)
    → owned_bytes c t'.entries
      ≡ owned_bytes c t.entries + owner_bytes c entry.owner entry.payload_capacity
unfolding insert_free
insert_free-owned_bytes t t' entry id c ran =
    elim (Option-cases (get_elem? t.entries t.free_head)) [
      | inl out ↦ absurd (ground (arith, out, ran))
      | inr (occupied e, here) ↦ absurd (ground (arith, here, ran))
      | inr (vacant n g, here) ↦
          let filled = occupied (record entry { generation = u32 (g + 1) }) in
          let same : t'.entries ≡ set t.entries t.free_head filled = ground (arith, here, ran) in
          omega (
            arith,
            ap (owned_bytes c) same,
            owned_bytes-set c t.entries t.free_head (vacant n g) filled here,
          )
    ]

grow-owned_bytes :
    (t g : ResourceTable) (c : ℕ)
    → grow t ≡ ok g
    → owned_bytes c g.entries ≡ owned_bytes c t.entries
unfolding grow
grow-owned_bytes t g c ran =
    ground (
      arith,
      owned_bytes-grow c t.entries (t.capacity * 2) t.capacity (t.capacity * 2 - t.capacity),
    )

pub insert-owned_bytes :
    (t t' : ResourceTable) (entry : ResourceEntry) (id : ResourceId) (c : ℕ)
    → insert t entry ≡ returns (t', ok id)
    → owned_bytes c t'.entries
      ≡ owned_bytes c t.entries + owner_bytes c entry.owner entry.payload_capacity
unfolding insert
insert-owned_bytes t t' entry id c ran = elim (Result-cases (grow t)) [
  | inl (g, grown) ↦ ground (
    arith,
    grown,
    grow-owned_bytes t g c grown,
    insert_free-owned_bytes g t' entry id c,
    insert_free-owned_bytes t t' entry id c,
  )
  | inr (er, full) ↦ ground (arith, full, insert_free-owned_bytes t t' entry id c)
]
