-- ===== src/Reactor/Topology/Validation/Roles.antt =====
-- The roles that `validate` in crates/torvyn-reactor/src/topology.rs checks against the edges.
use torvyn.Common.{
  ℕ, zero, suc, ◌+◌, ◌<◌, ◌≡◌, ◌≢◌, ◌⊎◌, refl, subst, inl, inr, some, List, Bool, true, false, [],
  ◌∷◌, arith, length, get_elem?, returns,
}
use torvyn.Common.Counts.{get_or, get_elem?-get_or}
use torvyn.Reactor.Topology.{StageDefinition}
use torvyn.Reactor.Topology.Validation.{
  TopologyError, contains_cycle, source_has_incoming, sink_has_outgoing, valid, invalid, is_source,
  is_sink, role_violated, check_roles, Adjacency,
}

List-cases : (l : List ℕ) → (l ≡ []) ⊎ ((x : ℕ) × (rest : List ℕ) × (l ≡ x ∷ rest))
List-cases [] = inl refl
List-cases (x ∷ rest) = inr (x, rest, refl)

role_violated-cases :
    (test : Bool) (edges : List (List ℕ)) (idx : ℕ)
    → idx < length edges
    → (role_violated test edges idx ≡ returns true)
      ⊎ ((role_violated test edges idx ≡ returns false) × (test ≡ true → get_or edges idx [] ≡ []))
unfolding role_violated
role_violated-cases false edges idx h = inr (refl, λ q. cc)
role_violated-cases true edges idx h =
    let at = get_elem?-get_or edges idx [] h in
    elim (List-cases (get_or edges idx [])) [
      | inl empty ↦ inr (ground (arith, at, empty), λ q. empty)
      | inr (x, rest, more) ↦ inl (ground (arith, at, more))
    ]

-- What the roles allow a stage.
abbrev pub IsAllowed : Adjacency → ℕ → StageDefinition → Type 0
IsAllowed e i stage =
    (is_source stage.role ≡ true → get_or e.in_edges i [] ≡ [])
    × (is_sink stage.role ≡ true → get_or e.edges.out_edges i [] ≡ [])

stage_inj : (s t : StageDefinition) → some s ≡ some t → s ≡ t
stage_inj s t h = cc

-- The loop over the stages refuses one, or the roles of all allow their edges.
pub check_roles-IsAllowed :
    (idx n : ℕ) (e : Adjacency) (stages : List StageDefinition)
    → idx + length stages ≡ n
    → length e.in_edges ≡ n
    → length e.edges.out_edges ≡ n
    → ((reason : TopologyError) × (check_roles idx e stages ≡ returns (invalid reason))
        × (reason ≢ contains_cycle))
      ⊎ ((check_roles idx e stages ≡ returns valid)
          × ((k : ℕ) (stage : StageDefinition)
              → get_elem? stages k ≡ some stage
              → IsAllowed e (idx + k) stage))
unfolding check_roles
check_roles-IsAllowed idx n e [] l li lo = inr (refl, λ k stage h. absurd (ground (arith, h)))
check_roles-IsAllowed idx n e (stage ∷ stages) l li lo =
    elim (role_violated-cases (is_source stage.role) e.in_edges idx (omega (arith, l, li))) [
      | inl fed ↦
          elim (role_violated-cases (is_sink stage.role) e.edges.out_edges idx
            (omega (arith, l, lo))) [
              | inl feeds ↦
                  inl (source_has_incoming idx stage.component_id, rw (fed, feeds) refl, λ q. cc)
              | inr (ends, _) ↦
                  inl (source_has_incoming idx stage.component_id, rw (fed, ends) refl, λ q. cc)
            ]
      | inr (starts, no_in) ↦
          elim (role_violated-cases (is_sink stage.role) e.edges.out_edges idx
            (omega (arith, l, lo))) [
              | inl feeds ↦
                  inl (sink_has_outgoing idx stage.component_id, rw (starts, feeds) refl, λ q. cc)
              | inr (ends, no_out) ↦
                  elim (check_roles-IsAllowed (suc idx) n e stages (omega (arith, l)) li lo) [
                    | inl (reason, run, other) ↦ inl (reason, rw (starts, ends) run, other)
                    | inr (run, allowed) ↦
                        inr (rw (starts, ends) run, allowed_at stage stages no_in no_out allowed)
                  ]
            ]
    ]
  where
    allowed_at :
        (stage : StageDefinition) (stages : List StageDefinition)
        → (is_source stage.role ≡ true → get_or e.in_edges idx [] ≡ [])
        → (is_sink stage.role ≡ true → get_or e.edges.out_edges idx [] ≡ [])
        → ((k : ℕ) (stage : StageDefinition)
            → get_elem? stages k ≡ some stage
            → IsAllowed e (suc idx + k) stage)
        → (k : ℕ) (s : StageDefinition) → get_elem? (stage ∷ stages) k ≡ some s
        → IsAllowed e (idx + k) s
    allowed_at stage stages no_in no_out allowed zero s h =
        subst (λ i. IsAllowed e i s) (omega arith)
          (subst (λ x. IsAllowed e idx x) (stage_inj stage s h) (no_in, no_out))
    allowed_at stage stages no_in no_out allowed (suc k) s h =
        subst (λ i. IsAllowed e i s) (omega arith) (allowed k s h)
