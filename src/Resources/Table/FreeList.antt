-- ===== src/Resources/Table/FreeList.antt =====
-- The free list of crates/torvyn-resources/src/table.rs, which runs through the vacant slots.
use mathlib.Core.List.{append_assoc}
use torvyn.Common.{
  ℕ, zero, suc, ◌+◌, ◌≡◌, refl, sym, subst, ◌∙◌, List, [], ◌∷◌, ◌++◌, arith, length, get_elem?, set,
  some, length-append, get_elem?-set_ne, if◌then◌else◌, ltb, get_elem?-append_middle, ap,
}
use torvyn.Common.Indices.{Misses, range}
use torvyn.Resources.Handle.{Slot, occupied, vacant, ResourceEntry}
use torvyn.Resources.Table.{free_list_end, fresh_slots}

-- The indices `free`, followed from `head` by `next_free`, end the list.
abbrev pub Linked : List Slot → ℕ → List ℕ → Type 0
Linked es head [] = head ≡ free_list_end
Linked es head (i ∷ free) =
    (head ≡ i)
    × ((next : ℕ) × (g : ℕ) × (get_elem? es i ≡ some (vacant next g)) × Linked es next free)

abbrev pub occupancy : List Slot → ℕ
occupancy [] = 0
occupancy (occupied e ∷ es) = suc (occupancy es)
occupancy (vacant n g ∷ es) = occupancy es

-- A slot off the free list can be written.
pub Linked-set :
    (es : List Slot) (head : ℕ) (free : List ℕ) (i : ℕ) (s : Slot)
    → Misses i free
    → Linked es head free
    → Linked (set es i s) head free
Linked-set es head [] i s m l = l
Linked-set es head (j ∷ free) i s m (at, (next, g, here, rest)) =
    (at, (next, g, get_elem?-set_ne es i j s m.0 ∙ here, Linked-set es next free i s m.1 rest))

-- An occupied slot is not on the free list.
pub Misses-of_occupied :
    (es : List Slot) (head : ℕ) (free : List ℕ) (i : ℕ) (e : ResourceEntry)
    → get_elem? es i ≡ some (occupied e)
    → Linked es head free
    → Misses i free
Misses-of_occupied es head [] i e h l = tt
Misses-of_occupied es head (j ∷ free) i e h (at, (next, g, here, rest)) = (
  λ same. cc (subst (λ k. get_elem? es k ≡ some (occupied e)) same h, here),
  Misses-of_occupied es next free i e h rest,
)

pub occupancy-fill :
    (es : List Slot) (i n g : ℕ) (e : ResourceEntry)
    → get_elem? es i ≡ some (vacant n g)
    → occupancy (set es i (occupied e)) ≡ suc (occupancy es)
occupancy-fill [] i n g e h = ground arith
occupancy-fill (s ∷ es) zero n g e h = ground arith
occupancy-fill (occupied d ∷ es) (suc i) n g e h = ap suc (occupancy-fill es i n g e h)
occupancy-fill (vacant m k ∷ es) (suc i) n g e h = occupancy-fill es i n g e h

pub occupancy-clear :
    (es : List Slot) (i n g : ℕ) (e : ResourceEntry)
    → get_elem? es i ≡ some (occupied e)
    → suc (occupancy (set es i (vacant n g))) ≡ occupancy es
occupancy-clear [] i n g e h = ground arith
occupancy-clear (s ∷ es) zero n g e h = ground arith
occupancy-clear (occupied d ∷ es) (suc i) n g e h = ap suc (occupancy-clear es i n g e h)
occupancy-clear (vacant m k ∷ es) (suc i) n g e h = occupancy-clear es i n g e h

pub occupancy-replace :
    (es : List Slot) (i : ℕ) (e e' : ResourceEntry)
    → get_elem? es i ≡ some (occupied e)
    → occupancy (set es i (occupied e')) ≡ occupancy es
occupancy-replace [] i e e' h = ground arith
occupancy-replace (s ∷ es) zero e e' h = ground arith
occupancy-replace (occupied d ∷ es) (suc i) e e' h = ap suc (occupancy-replace es i e e' h)
occupancy-replace (vacant m k ∷ es) (suc i) e e' h = occupancy-replace es i e e' h

pub length-fresh_slots : (end i n : ℕ) → length (fresh_slots end i n) ≡ n
unfolding fresh_slots
length-fresh_slots end i zero = refl
length-fresh_slots end i (suc n) = ap suc (length-fresh_slots end (i + 1) n)

pub occupancy-fresh_slots :
    (es : List Slot) (end i n : ℕ) → occupancy (es ++ fresh_slots end i n) ≡ occupancy es
unfolding fresh_slots
occupancy-fresh_slots [] end i zero = refl
occupancy-fresh_slots [] end i (suc n) = occupancy-fresh_slots [] end (i + 1) n
occupancy-fresh_slots (occupied e ∷ es) end i n = ap suc (occupancy-fresh_slots es end i n)
occupancy-fresh_slots (vacant m g ∷ es) end i n = occupancy-fresh_slots es end i n

-- Fresh slots behind `es` are linked in order.
pub Linked-fresh_slots :
    (es : List Slot) (end i n : ℕ)
    → i ≡ length es
    → end ≡ i + n
    → Linked (es ++ fresh_slots end i n) (if ltb i end then i else free_list_end) (range i n)
unfolding fresh_slots
Linked-fresh_slots es end i zero at up = ground arith
Linked-fresh_slots es end i (suc n) at up =
    let slot = vacant (if ltb (i + 1) end then i + 1 else free_list_end) 0 in
    let rest =
      Linked-fresh_slots (es ++ slot ∷ []) end (i + 1) n
        (omega (arith, length-append es (slot ∷ []))) (omega arith) in
    let all = append_assoc es (slot ∷ []) (fresh_slots end (i + 1) n) in
    (
      ground arith,
      (
        if ltb (i + 1) end then i + 1 else free_list_end,
        0,
        subst (λ (k : ℕ). get_elem? (es ++ slot ∷ fresh_slots end (i + 1) n) k ≡ some slot) (sym at)
            (get_elem?-append_middle es (fresh_slots end (i + 1) n) slot),
        subst
            (λ (l : List Slot).
              Linked l (if ltb (i + 1) end then i + 1 else free_list_end) (range (i + 1) n))
            all rest,
      ),
    )
