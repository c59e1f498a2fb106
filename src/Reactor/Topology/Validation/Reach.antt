-- ===== src/Reactor/Topology/Validation/Reach.antt =====
-- The search from the sources in `validate` of crates/torvyn-reactor/src/topology.rs.
use torvyn.Common.{
  ℕ, zero, suc, ◌+◌, ◌≤◌, ◌<◌, ◌≡◌, refl, sym, ap, subst, ◌∙◌, inl, inr, none, some, List, Bool,
  true, false, [], ◌∷◌, ◌++◌, arith, length, length-set, length-append, length-replicate, get_elem?,
  set, replicate, returns, index_cases, Bool-cases,
}
use torvyn.Common.Counts.{
  get_or, get_or-set_ne, get_or-replicate, get_elem?-get_or, count, count-append,
}
use torvyn.Reactor.Topology.{StageDefinition}
use torvyn.Reactor.Topology.Validation.{
  is_source, mark_sources, mark_neighbors, spread, first_unmarked,
}
use torvyn.Reactor.Topology.Validation.Entry.{HasEdge}

unmarked : List Bool → ℕ
unmarked [] = 0
unmarked (true ∷ reachable) = unmarked reachable
unmarked (false ∷ reachable) = suc (unmarked reachable)

unmarked-set :
    (reachable : List Bool) (v : ℕ)
    → get_elem? reachable v ≡ some false
    → suc (unmarked (set reachable v true)) ≡ unmarked reachable
unfolding unmarked
unmarked-set [] v h = absurd (ground (arith, h))
unmarked-set (b ∷ reachable) zero h = ground (arith, h)
unmarked-set (true ∷ reachable) (suc v) h = unmarked-set reachable v h
unmarked-set (false ∷ reachable) (suc v) h = ap suc (unmarked-set reachable v h)

unmarked-replicate : (n : ℕ) → unmarked (replicate n false) ≡ n
unfolding unmarked
unmarked-replicate zero = refl
unmarked-replicate (suc n) = ap suc (unmarked-replicate n)

-- All that is marked or queued has a property, and the rest of the search is bounded.
module _ (n : ℕ) (P : ℕ → Type 0) where
  pub record IsSearch (fuel : ℕ) (reachable : List Bool) (queue : List ℕ) : Type 0 where
    size : length reachable ≡ n
    marked : (v : ℕ) → get_or reachable v false ≡ true → P v
    queued : (v : ℕ) → 0 < count v queue → P v × (v < n)
    bounded : unmarked reachable + length queue ≤ fuel

  mark-IsSearch :
      (fuel : ℕ) (reachable : List Bool) (queue : List ℕ) (v : ℕ)
      → IsSearch fuel reachable queue
      → P v
      → v < n
      → get_elem? reachable v ≡ some false
      → IsSearch fuel (set reachable v true) (queue ++ v ∷ [])
  unfolding count
  mark-IsSearch fuel reachable queue v s p lt fresh = record {
    size = length-set reachable v true ∙ s.size;
    marked = λ u h. elim (index_cases v u) [
      | inl same ↦ subst P same p
      | inr other ↦ s.marked u (sym (get_or-set_ne reachable v u true false other) ∙ h)
    ];
    queued = λ u h. elim (index_cases v u) [
      | inl same ↦ subst (λ x. P x × (x < n)) same (p, lt)
      | inr other ↦ s.queued u (ground (arith, h, other, count-append u queue (v ∷ [])))
    ];
    bounded =
        omega (arith, s.bounded, unmarked-set reachable v fresh, length-append queue (v ∷ []));
  }

  mark_neighbors-IsSearch :
      (fuel : ℕ) (reachable : List Bool) (queue neighbors : List ℕ)
      → IsSearch fuel reachable queue
      → ((v : ℕ) → 0 < count v neighbors → P v × (v < n))
      → (next : List Bool × List ℕ) × (mark_neighbors reachable queue neighbors ≡ returns next)
        × IsSearch fuel next.0 next.1
  unfolding mark_neighbors count
  mark_neighbors-IsSearch fuel reachable queue [] s h = ((reachable, queue), refl, s)
  mark_neighbors-IsSearch fuel reachable queue (v ∷ neighbors) s h =
      let (p, lt) = h v (ground arith) in
      let rest : (u : ℕ) → 0 < count u neighbors → P u × (u < n) = λ u q. h u (ground (arith, q)) in
      let at = get_elem?-get_or reachable v false (omega (arith, lt, s.size)) in
      elim (Bool-cases (get_or reachable v false)) [
        | inl old ↦ rw (at, old) (mark_neighbors-IsSearch fuel reachable queue neighbors s rest)
        | inr new ↦
            rw (at, new)
              (mark_neighbors-IsSearch fuel (set reachable v true) (queue ++ v ∷ []) neighbors
                (mark-IsSearch fuel reachable queue v s p lt (at ∙ ap some new)) rest)
      ]

  pub spread-marks :
      (fuel : ℕ) (out_edges : List (List ℕ)) (reachable : List Bool) (queue : List ℕ)
      → length out_edges ≡ n
      → ((u v : ℕ) → P u → HasEdge out_edges u v → P v × (v < n))
      → IsSearch fuel reachable queue
      → (found : List Bool) × (spread (suc fuel) out_edges reachable queue ≡ returns (some found))
        × (length found ≡ n)
        × ((v : ℕ) → get_or found v false ≡ true → P v)
  unfolding spread count
  spread-marks fuel out_edges reachable [] l closed s = (reachable, refl, s.size, s.marked)
  spread-marks zero out_edges reachable (node ∷ queue) l closed s =
      absurd (omega (arith, s.bounded))
  spread-marks (suc fuel) out_edges reachable (node ∷ queue) l closed s =
      let (p, lt) = s.queued node (ground arith) in
      let at = get_elem?-get_or out_edges node [] (omega (arith, lt, l)) in
      let (next, run, s') =
        mark_neighbors-IsSearch fuel reachable queue (get_or out_edges node [])
          (record {
            size = s.size;
            marked = s.marked;
            queued = λ v h. s.queued v (ground (arith, h));
            bounded = omega (arith, s.bounded);
          })
          (λ v h. closed node v p h) in
      rw (at, run) (spread-marks fuel out_edges next.0 next.1 l closed s')

  -- The sources from an index on are marked, and none before.
  mark_sources-IsSearch :
      (idx : ℕ) (reachable : List Bool) (queue : List ℕ) (stages : List StageDefinition)
      → idx + length stages ≡ n
      → ((k : ℕ) (stage : StageDefinition)
          → get_elem? stages k ≡ some stage
          → is_source stage.role ≡ true
          → P (idx + k))
      → ((v : ℕ) → idx ≤ v → get_or reachable v false ≡ false)
      → IsSearch n reachable queue
      → (start : List Bool × List ℕ) × (mark_sources idx reachable queue stages ≡ returns start)
        × IsSearch n start.0 start.1
  unfolding mark_sources
  mark_sources-IsSearch idx reachable queue [] l from fresh s = ((reachable, queue), refl, s)
  mark_sources-IsSearch idx reachable queue (stage ∷ stages) l from fresh s =
      let from' : (k : ℕ) (next : StageDefinition)
          → get_elem? stages k ≡ some next
          → is_source next.role ≡ true
          → P (suc idx + k) =
        λ k next at role. subst P (omega arith) (from (suc k) next at role) in
      let at = get_elem?-get_or reachable idx false (omega (arith, s.size, l)) in
      elim (Bool-cases (is_source stage.role)) [
        | inl role ↦
            rw (role, at, mark_sources)
              (mark_sources-IsSearch (suc idx) (set reachable idx true) (queue ++ idx ∷ []) stages
                (omega (arith, l)) from'
                (λ v h.
                  get_or-set_ne reachable idx v true false (omega (arith, h))
                  ∙ fresh v (omega (arith, h)))
                (mark-IsSearch n reachable queue idx s
                  (subst P (omega arith) (from 0 stage refl role)) (omega (arith, l))
                  (at ∙ ap some (fresh idx (omega arith)))))
        | inr role ↦
            rw (role, mark_sources)
              (mark_sources-IsSearch (suc idx) reachable queue stages (omega (arith, l)) from'
                (λ v h. fresh v (omega (arith, h))) s)
      ]

  pub sources-IsSearch :
      (stages : List StageDefinition)
      → length stages ≡ n
      → ((k : ℕ) (stage : StageDefinition)
          → get_elem? stages k ≡ some stage
          → is_source stage.role ≡ true
          → P k)
      → (start : List Bool × List ℕ) × (mark_sources 0 (replicate n false) [] stages
          ≡ returns start)
        × IsSearch n start.0 start.1
  unfolding count
  sources-IsSearch stages l from =
      mark_sources-IsSearch 0 (replicate n false) [] stages (omega (arith, l))
        (λ k stage at role. subst P (omega arith) (from k stage at role))
        (λ v h. get_or-replicate n v false)
        (record {
          size = length-replicate n false;
          marked = λ v h. absurd (ground (arith, h, get_or-replicate n v false));
          queued = λ v h. absurd (omega arith);
          bounded = omega (arith, unmarked-replicate n);
        })

pub first_unmarked-none :
    (idx : ℕ) (reachable : List Bool) (v : ℕ)
    → first_unmarked idx reachable ≡ none
    → v < length reachable
    → get_or reachable v false ≡ true
unfolding first_unmarked
first_unmarked-none idx [] v h lt = absurd (omega arith)
first_unmarked-none idx (true ∷ reachable) zero h lt = refl
first_unmarked-none idx (true ∷ reachable) (suc v) h lt =
    first_unmarked-none (suc idx) reachable v h (omega arith)
first_unmarked-none idx (false ∷ reachable) v h lt = absurd (ground (arith, h))

pub first_unmarked-lt :
    (idx : ℕ) (reachable : List Bool) (i : ℕ)
    → first_unmarked idx reachable ≡ some i
    → i < idx + length reachable
unfolding first_unmarked
first_unmarked-lt idx [] i h = absurd (ground (arith, h))
first_unmarked-lt idx (true ∷ reachable) i h =
    omega (arith, first_unmarked-lt (suc idx) reachable i h)
first_unmarked-lt idx (false ∷ reachable) i h = ground (arith, h)
