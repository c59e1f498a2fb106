-- ===== src/Reactor/Topology/Validation/Sound.antt =====
-- What `validate` in crates/torvyn-reactor/src/topology.rs establishes.
use torvyn.Common.{
  ℕ, suc, ◌+◌, ◌<◌, ◌≡◌, ◌≢◌, refl, sym, ap, subst, ◌∙◌, inl, inr, some, Option, List, Bool, true,
  false, ◌==◌, arith, length, get_elem?, returns, Run, Bool-cases, Option-cases, get_elem?-lt,
}
use torvyn.Common.Counts.{get_or, get_or-replicate, count}
use torvyn.Reactor.Topology.{StageDefinition, FlowTopology, roots}
use torvyn.Reactor.Topology.Order.{kahn-Sorts}
use torvyn.Reactor.Topology.Validation.{
  TopologyError, no_stages, no_source, no_sink, contains_cycle, unreachable, Validation, valid,
  invalid, is_source, is_sink, has_role, Adjacency, linked, no_edges, after_search, first_unmarked,
  search_sources, after_count, after_roles, after_linking, validate,
}
use torvyn.Reactor.Topology.Validation.Entry.{no_edges-IsCounted, IsConnected}
use torvyn.Reactor.Topology.Validation.Connect.{connect-IsConnected}
use torvyn.Reactor.Topology.Validation.Visits.{count_visited-kahn}
use torvyn.Reactor.Topology.Validation.Roles.{IsAllowed, check_roles-IsAllowed}
use torvyn.Reactor.Topology.Validation.Reach.{
  spread-marks, sources-IsSearch, first_unmarked-none, first_unmarked-lt,
}
use torvyn.Reactor.Topology.Validation.Ordered.{
  Joins-lt, edge_of, edge_in, pending, enough_rounds, found_order, full-IsOrder, missing_walks,
}
use torvyn.Reactor.Topology.Validation.Spec.{Reached, Walk, IsOrder, IsSound, from_source, along}

-- What a run of the checks says of a topology.
pub data Judges (t : FlowTopology) (run : Run (Option Validation)) : Type 0 where
  refuses :
      (reason : TopologyError)
      → run ≡ returns (some (invalid reason))
      → reason ≢ contains_cycle
      → Judges t run
  finds_cycle :
      run ≡ returns (some (invalid contains_cycle))
      → ((m : ℕ) → (i : ℕ) × (i < length t.stages) × Walk t.connections m i)
      → Judges t run
  accepts : run ≡ returns (some valid) → IsSound t → Judges t run

Judges-step :
    (t : FlowTopology) (r r' : Run (Option Validation)) → r ≡ r' → Judges t r' → Judges t r
Judges-step t r r' e (refuses reason run other) = refuses reason (e ∙ run) other
Judges-step t r r' e (finds_cycle run walks) = finds_cycle (e ∙ run) walks
Judges-step t r r' e (accepts run s) = accepts (e ∙ run) s

-- The checks after the arrays of a topology are filled.
module _ (t : FlowTopology) (e : Adjacency)
    (w : IsConnected (length t.stages) (no_edges (length t.stages)) t.connections e)
    (some_source : has_role is_source t.stages ≡ true)
    (some_sink : has_role is_sink t.stages ≡ true)
    (allowed : (k : ℕ) (stage : StageDefinition)
      → get_elem? t.stages k ≡ some stage
      → IsAllowed e k stage)
    (order : List ℕ) (ordered : IsOrder t order) where
  all-Reached-IsSound : ((i : ℕ) → i < length t.stages → Reached t i) → IsSound t
  unfolding count
  all-Reached-IsSound reached = record {
    joined = w.joined;
    order = order;
    ordered = ordered;
    source_ends = λ u v stage j at. elim (Bool-cases (is_source stage.role)) [
      | inl role ↦
          absurd
            (ground (arith, (edge_in t e w u v j).1, ap (count u) ((allowed v stage at).0 role)))
      | inr other ↦ other
    ];
    sink_ends = λ u v stage j at. elim (Bool-cases (is_sink stage.role)) [
      | inl role ↦
          absurd
            (ground (arith, (edge_in t e w u v j).0, ap (count v) ((allowed u stage at).1 role)))
      | inr other ↦ other
    ];
    reached = reached;
    some_source = some_source;
    some_sink = some_sink;
  }

  after_search-Judges :
      (found : List Bool)
      → length found ≡ length t.stages
      → ((v : ℕ) → get_or found v false ≡ true → Reached t v)
      → Judges t (after_search t (some found))
  unfolding after_search
  after_search-Judges found size marks = elim (Option-cases (first_unmarked 0 found)) [
    | inl all ↦ accepts (rw (all, after_search) refl) (
        all-Reached-IsSound
          (λ i lt. marks i (first_unmarked-none 0 found i all (omega (arith, size, lt)))))
    | inr (i, missing) ↦
        let (stage, at) =
          get_elem?-lt t.stages i (omega (arith, first_unmarked-lt 0 found i missing, size)) in
        refuses (unreachable i stage.component_id) (rw (missing, after_search, at) refl) (λ q. cc)
  ]

  pub search_sources-Judges : Judges t (search_sources t e)
  unfolding search_sources
  search_sources-Judges =
      let n = length t.stages in
      let (start, run, s) =
        sources-IsSearch n (Reached t) t.stages refl
          (λ k stage at role. from_source k stage at role) in
      let (found, run', size, marks) =
        spread-marks n (Reached t) n e.edges.out_edges start.0 start.1 w.counted.out_length
          (λ u v r h.
            let j = edge_of t e w u v h in
            (along u v r j, (Joins-lt n t.connections u v w.joined j).1))
          s in
      Judges-step t _ _ (rw (run, run') refl) (after_search-Judges found size marks)

module _ (t : FlowTopology) (e : Adjacency)
    (w : IsConnected (length t.stages) (no_edges (length t.stages)) t.connections e)
    (some_source : has_role is_source t.stages ≡ true)
    (some_sink : has_role is_sink t.stages ≡ true) where
  after_roles-Judges :
      ((k : ℕ) (stage : StageDefinition) → get_elem? t.stages k ≡ some stage → IsAllowed e k stage)
      → Judges t (after_roles t e valid)
  unfolding after_roles after_count
  after_roles-Judges allowed =
      let n = length t.stages in
      let fuel = suc (n + length t.connections) in
      let queue = roots 0 e.edges.in_degree in
      let (order, run, s) =
        kahn-Sorts fuel e.edges.out_edges e.edges.out_edges e.edges.in_degree queue (pending t e w)
          (enough_rounds t e w) in
      let counted =
        count_visited-kahn fuel e.edges.out_edges e.edges.in_degree queue (some order) run in
      elim (Bool-cases (length order == n)) [
        | inl full ↦ Judges-step t _ _ (rw (counted, full) refl) (
            search_sources-Judges t e w some_source some_sink allowed order (
              full-IsOrder t e w order s (found_order t e w (some order) run)
                (ground (arith, full))))
        | inr fewer ↦
            finds_cycle (rw (counted, fewer) refl)
              (missing_walks t e w order s (λ q. ground (arith, q, fewer)))
      ]

  after_linking-Judges : Judges t (after_linking t (linked e))
  unfolding after_linking after_roles
  after_linking-Judges =
      let n = length t.stages in
      elim (check_roles-IsAllowed 0 n e t.stages (omega arith) w.counted.in_length
        w.counted.out_length) [
          | inl (reason, run, other) ↦ refuses reason (rw run refl) other
          | inr (run, allowed) ↦ Judges-step t _ _ (rw run refl) (
              after_roles-Judges
                (λ k stage at. subst (λ i. IsAllowed e i stage) (omega arith) (allowed k stage at)))
        ]

-- With fewer than 2^32 connections, each run of `validate` ends, without a panic, in a judgement that is true.
validate-Judges : (t : FlowTopology) → length t.connections < 4294967296 → Judges t (validate t)
unfolding validate after_linking
validate-Judges t small = elim (Bool-cases (length t.stages == 0)) [
  | inl empty ↦ refuses no_stages (rw empty refl) (λ q. cc)
  | inr some_stage ↦ elim (Bool-cases (has_role is_source t.stages)) [
    | inr none_is ↦ refuses no_source (rw (some_stage, none_is) refl) (λ q. cc)
    | inl has_source ↦ elim (Bool-cases (has_role is_sink t.stages)) [
      | inr none_is ↦ refuses no_sink (rw (some_stage, has_source, none_is) refl) (λ q. cc)
      | inl has_sink ↦
          let n = length t.stages in
          elim (connect-IsConnected n 0 (no_edges n) t.connections (no_edges-IsCounted n)
            (λ v. omega (arith, small, get_or-replicate {A = ℕ} n v 0))) [
              | inl (reason, run, other) ↦
                  refuses reason (rw (some_stage, has_source, has_sink, run) refl) other
              | inr (e, run, w) ↦
                  Judges-step t _ _ (rw (some_stage, has_source, has_sink, run) refl)
                    (after_linking-Judges t e w has_source has_sink)
            ]
    ]
  ]
]

-- On a topology of fewer than 2^32 connections, wherever they lead, `validate` returns: no check panics,
-- and no loop runs out of fuel.
pub validate_total :
    (t : FlowTopology)
    → length t.connections < 4294967296
    → (v : Validation) × (validate t ≡ returns (some v))
validate_total t small = elim (validate-Judges t small) [
  | refuses reason run other ↦ (invalid reason, run)
  | finds_cycle run walks ↦ (invalid contains_cycle, run)
  | accepts run s ↦ (valid, run)
]

validation_inj :
    (a b : Validation)
    → ◌≡◌ {A = Run (Option Validation)} (returns (some a)) (returns (some b))
    → a ≡ b
validation_inj a b h = cc

invalid_inj : (a b : TopologyError) → invalid a ≡ invalid b → a ≡ b
invalid_inj a b h = cc

-- A topology of fewer than 2^32 connections that `validate` accepts is as its documentation promises: its connections join stages
-- that exist, `topological_order` returns each stage once with no connection leading back, sources have no
-- connection in and sinks none out, every stage is reached from a source, and there are a source and a sink.
pub validate-IsSound :
    (t : FlowTopology)
    → length t.connections < 4294967296
    → validate t ≡ returns (some valid)
    → IsSound t
validate-IsSound t small h = elim (validate-Judges t small) [
  | refuses reason run other ↦ absurd (ground (arith, validation_inj _ _ (sym run ∙ h)))
  | finds_cycle run walks ↦ absurd (ground (arith, validation_inj _ _ (sym run ∙ h)))
  | accepts run s ↦ s
]

-- A topology of fewer than 2^32 connections that `validate` refuses for a cycle has, for every number, a
-- walk of so many connections.
pub validate-Walk :
    (t : FlowTopology)
    → length t.connections < 4294967296
    → validate t ≡ returns (some (invalid contains_cycle))
    → (m : ℕ) → (i : ℕ) × (i < length t.stages) × Walk t.connections m i
validate-Walk t small h = elim (validate-Judges t small) [
  | refuses reason run other ↦ absurd (other (invalid_inj _ _ (validation_inj _ _ (sym run ∙ h))))
  | finds_cycle run walks ↦ walks
  | accepts run s ↦ absurd (ground (arith, validation_inj _ _ (sym run ∙ h)))
]
