-- ===== src/Resources/Pool/Stack.antt =====
-- The free stack of a TierPool of crates/torvyn-resources/src/pool.rs.
use torvyn.Common.{
  index_cases, ℕ, zero, suc, ◌+◌, ◌≤◌, ◌<◌, ◌≡◌, refl, sym, subst, ap, ◌∙◌, ◌⊎◌, inl, inr, Bool,
  true, none, some, List, [], ◌∷◌, arith, length, get_elem?, set, length-set, get_elem?-set_self,
  get_elem?-set_ne, lt-length_of_some, returns, ◌==◌, Bool-cases, ==_iff,
}
use torvyn.Common.Indices.{Misses, Distinct, AllBelow, length-Distinct-le}
use torvyn.Common.Word.{u32_max, u32}
use torvyn.Resources.Pool.{
  TierPool, PoolBuffer, stack_empty, head_index, head_tag, make_head, taken, pop, push, slot_of,
}

-- The indices `free`, followed from `top` by `next_free`, end the stack.
abbrev pub Stacked : List PoolBuffer → ℕ → List ℕ → Type 0
Stacked bs top [] = top ≡ stack_empty
Stacked bs top (i ∷ free) =
    (top ≡ i) × ((b : PoolBuffer) × (get_elem? bs i ≡ some b) × Stacked bs b.next_free free)

-- No two slots have one address.
abbrev pub AreApart : List PoolBuffer → Type 0
AreApart bs =
    (i j : ℕ) (b c : PoolBuffer)
    → get_elem? bs i ≡ some b
    → get_elem? bs j ≡ some c
    → b.ptr ≡ c.ptr
    → i ≡ j

-- The stack holds the slots `free`, from the top down, each once, and counts them.
pub record Stacks (p : TierPool) (free : List ℕ) : Type 0 where
  pub stacked : Stacked p.buffers (head_index p.free_top) free
  pub distinct : Distinct free
  pub counted : p.available ≡ length free
  pub few : length p.buffers ≤ u32_max
  pub apart : AreApart p.buffers

pub head_index-make_head :
    (tag index : ℕ) → index ≤ u32_max → head_index (make_head tag index) ≡ index
unfolding head_index make_head
head_index-make_head tag index h = omega arith

-- A packed head keeps its two halves.
pub make_head_halves :
    (tag index : ℕ)
    → index ≤ u32_max
    → (head_index (make_head tag index) ≡ index) × (head_tag (make_head tag index) ≡ tag)
unfolding head_index head_tag make_head
make_head_halves tag index h = (omega arith, omega arith)

Stacked-fits :
    (bs : List PoolBuffer) (top : ℕ) (free : List ℕ)
    → length bs ≤ u32_max
    → Stacked bs top free
    → top ≤ u32_max
Stacked-fits bs top [] few s = omega arith
Stacked-fits bs top (i ∷ free) few (at, (b, held, rest)) =
    omega (arith, at, lt-length_of_some bs i held)

Stacked-AllBelow :
    (bs : List PoolBuffer) (top : ℕ) (free : List ℕ)
    → Stacked bs top free
    → AllBelow (length bs) free
Stacked-AllBelow bs top [] s = tt
Stacked-AllBelow bs top (i ∷ free) (at, (b, held, rest)) =
    (lt-length_of_some bs i held, Stacked-AllBelow bs b.next_free free rest)

Stacked-length :
    (bs : List PoolBuffer) (top : ℕ) (free : List ℕ)
    → Stacked bs top free
    → Distinct free
    → length free ≤ length bs
Stacked-length bs top free s d =
    length-Distinct-le (length bs) free d (Stacked-AllBelow bs top free s)

-- With a slot off the stack the stack is not full.
Stacked-room :
    (bs : List PoolBuffer) (top : ℕ) (free : List ℕ) (i : ℕ) (b : PoolBuffer)
    → Stacked bs top free
    → Distinct free
    → get_elem? bs i ≡ some b
    → Misses i free
    → length free < length bs
Stacked-room bs top free i b s d held off =
    length-Distinct-le (length bs) (i ∷ free) (off, d)
      (lt-length_of_some bs i held, Stacked-AllBelow bs top free s)

pub Stacked-set :
    (bs : List PoolBuffer) (top : ℕ) (free : List ℕ) (i : ℕ) (b : PoolBuffer)
    → Misses i free
    → Stacked bs top free
    → Stacked (set bs i b) top free
Stacked-set bs top [] i b m s = s
Stacked-set bs top (j ∷ free) i b m (at, (c, held, rest)) =
    (at, (c, get_elem?-set_ne bs i j b m.0 ∙ held, Stacked-set bs c.next_free free i b m.1 rest))

-- From an empty stack `pop` takes nothing, and counts the exhaustion; else it takes the buffer of the
-- top slot and leaves the slots below it. It never panics.
pub pop-Stacks :
    (p : TierPool) (free : List ℕ)
    → Stacks p free
    → ((free ≡ [])
        × (pop p ≡ returns (record p { exhaustion_count = u32 (p.exhaustion_count + 1) }, none)))
      ⊎ ((i : ℕ) × (rest : List ℕ) × (b : PoolBuffer) × (p' : TierPool) × (free ≡ i ∷ rest)
          × (get_elem? p.buffers i ≡ some b)
          × (pop p ≡ returns (p', some (b.ptr, b.alloc_size)))
          × Stacks p' rest
          × (p'.buffers ≡ p.buffers))
unfolding pop taken
pop-Stacks p [] v = inl (refl, ground (arith, v.stacked))
pop-Stacks p (i ∷ rest) v =
    let listed = Stacked-length p.buffers _ (i ∷ rest) v.stacked v.distinct in
    let (at, (b, held, below)) = v.stacked in
    let inside = lt-length_of_some p.buffers i held in
    let top = subst (λ k. get_elem? p.buffers k ≡ some b) (sym at) held in
    inr (
      i,
      rest,
      b,
      taken p b,
      refl,
      held,
      ground (arith, at, inside, v.few, top),
      record {
        stacked =
            rw
              (head_index-make_head (u32 (head_tag p.free_top + 1)) b.next_free
                (Stacked-fits p.buffers b.next_free rest v.few below))
              below;
        distinct = v.distinct.1;
        counted = omega (arith, v.counted, listed, v.few);
        few = v.few;
        apart = v.apart;
      },
      refl,
    )

-- The slot of an address, where no two slots have one.
slot_of_slot :
    (bs : List PoolBuffer) (k i : ℕ) (b : PoolBuffer)
    → AreApart bs
    → get_elem? bs i ≡ some b
    → slot_of k bs b.ptr ≡ some (k + i, b)
unfolding slot_of
slot_of_slot [] k i b a h = ground arith
slot_of_slot (c ∷ bs) k zero b a h = ground arith
slot_of_slot (c ∷ bs) k (suc i) b a h = elim (Bool-cases (c.ptr == b.ptr)) [
  | inl same ↦ absurd (omega (arith, a 0 (suc i) c b refl h ((==_iff c.ptr b.ptr).0 same)))
  | inr other ↦ rw other (
      slot_of_slot bs (k + 1) i b (λ m n d e p q r. ground (arith, a (suc m) (suc n) d e p q r)) h
      ∙ ground arith)
]

-- A slot that is linked anew keeps its address.
ptr-set :
    (bs : List PoolBuffer) (i n j : ℕ) (b c : PoolBuffer)
    → get_elem? bs i ≡ some b
    → get_elem? (set bs i (record b { next_free = n })) j ≡ some c
    → (old : PoolBuffer) × (get_elem? bs j ≡ some old) × (old.ptr ≡ c.ptr)
ptr-set bs i n j b c h p = elim (index_cases i j) [
  | inl same ↦
      let b' = record b { next_free = n } in
      let now = get_elem?-set_self bs i b' (lt-length_of_some bs i h) in
      let at = subst (λ k. get_elem? (set bs i b') k ≡ some b') same now in
      let eq : b' ≡ c = cc (at, p) in
      (b, subst (λ k. get_elem? bs k ≡ some b) same h, ap (λ (x : PoolBuffer). x.ptr) eq)
  | inr differs ↦ (c, sym (get_elem?-set_ne bs i j _ differs) ∙ p, refl)
]

apart-set :
    (bs : List PoolBuffer) (i n : ℕ) (b : PoolBuffer)
    → get_elem? bs i ≡ some b
    → AreApart bs
    → AreApart (set bs i (record b { next_free = n }))
apart-set bs i n b h a j k c d p q r =
    let (c', at_c, same_c) = ptr-set bs i n j b c h p in
    let (d', at_d, same_d) = ptr-set bs i n k b d h q in
    a j k c' d' at_c at_d (same_c ∙ r ∙ sym same_d)

-- The address of a slot off the stack goes on top of it: `push` accepts it, and the slots keep their
-- addresses.
pub push-Stacks :
    (p : TierPool) (free : List ℕ) (i : ℕ) (b : PoolBuffer)
    → Stacks p free
    → get_elem? p.buffers i ≡ some b
    → Misses i free
    → (p' : TierPool) × (push p b.ptr ≡ (p', true))
      × Stacks p' (i ∷ free)
      × (p'.buffers ≡ set p.buffers i (record b { next_free = head_index p.free_top }))
unfolding push
push-Stacks p free i b v held off =
    let s : slot_of 0 p.buffers b.ptr ≡ some (i, b) =
      slot_of_slot p.buffers 0 i b v.apart held ∙ ground arith in
    let inside = lt-length_of_some p.buffers i held in
    let b' = record b { next_free = head_index p.free_top } in
    let bs = set p.buffers i b' in
    (
      record p {
        buffers = bs;
        free_top = make_head (u32 (head_tag p.free_top + 1)) i;
        available = u32 (p.available + 1);
        return_count = u32 (p.return_count + 1);
      },
      rw (s, push) refl,
      record {
        stacked = (
          head_index-make_head (u32 (head_tag p.free_top + 1)) i (omega (arith, inside, v.few)),
          (
            b',
            get_elem?-set_self p.buffers i b' inside,
            Stacked-set p.buffers (head_index p.free_top) free i b' off v.stacked,
          ),
        );
        distinct = (off, v.distinct);
        counted = omega (
          arith,
          v.counted,
          Stacked-room p.buffers (head_index p.free_top) free i b v.stacked v.distinct held off,
          v.few,
        );
        few = omega (arith, length-set p.buffers i b', v.few);
        apart = apart-set p.buffers i (head_index p.free_top) b held v.apart;
      },
      refl,
    )

cons-injective : {i j : ℕ} {is js : List ℕ} → i ∷ is ≡ j ∷ js → (i ≡ j) × (is ≡ js)
cons-injective h = (cc, cc)

-- `pop` after a `push` of a slot off the stack hands out the buffer that was pushed, and leaves the
-- stack as it was before.
pub pop-push :
    (p : TierPool) (free : List ℕ) (i : ℕ) (b : PoolBuffer)
    → Stacks p free
    → get_elem? p.buffers i ≡ some b
    → Misses i free
    → (p' : TierPool) × (pop (push p b.ptr).0 ≡ returns (p', some (b.ptr, b.alloc_size)))
      × Stacks p' free
pop-push p free i b v held off =
    let (p', pushed, v', at) = push-Stacks p free i b v held off in
    let same = ap (λ (r : TierPool × Bool). r.0) pushed in
    elim (pop-Stacks p' (i ∷ free) v') [
      | inl (empty, _) ↦ absurd (ground arith)
      | inr (j, rest, c, p2, split, found, popped, v2, _) ↦
          let b' = record b { next_free = head_index p.free_top } in
          let now : get_elem? p'.buffers i ≡ some b' =
            rw at (get_elem?-set_self p.buffers i b' (lt-length_of_some p.buffers i held)) in
          let eq : c ≡ b' =
            cc
              (found, subst (λ k. get_elem? p'.buffers k ≡ some b') (cons-injective split).0 now) in
          (
            p2,
            rw same (popped ∙ ap (λ (x : PoolBuffer). returns (p2, some (x.ptr, x.alloc_size))) eq),
            subst (Stacks p2) (sym (cons-injective split).1) v2,
          )
    ]
