-- ===== src/Reactor/Topology/Validation.antt =====
-- `validate` of crates/torvyn-reactor/src/topology.rs: the checks of a topology before a flow is made.
-- The text of an error is kept as its kind and the numbers that it prints. The loops run on fuel.
pub mod Connect
pub mod Entry
pub mod Reach
pub mod Roles
pub mod Ordered
pub mod Sound
pub mod Spec
pub mod Visits
use torvyn.Common.{
  ℕ, zero, suc, ◌+◌, Bool, true, false, not, ◌||◌, Option, none, some, List, [], ◌∷◌, ◌++◌, ◌==◌,
  leb, if◌then◌else◌, length, get_elem?, set, replicate, Run, returns, panics, ◌>>=◌, expect,
}
use torvyn.Reactor.Topology.{
  ComponentRole, source, processor, sink, filter, router, StageDefinition, StreamConnection,
  FlowTopology, Edges, add_connection, roots, visit,
}

-- `FlowCreationError::InvalidTopology`.
pub data TopologyError : Type 0 where
  no_stages no_source no_sink contains_cycle : TopologyError
  out_of_bounds : (connection from to stages : ℕ) → TopologyError
  self_loop : (connection stage : ℕ) → TopologyError
  source_has_incoming sink_has_outgoing unreachable : (stage component_id : ℕ) → TopologyError

pub data Validation : Type 0 where
  valid : Validation
  invalid : TopologyError → Validation

unfoldable pub is_source : ComponentRole → Bool
is_source source = true
is_source _ = false

unfoldable pub is_sink : ComponentRole → Bool
is_sink sink = true
is_sink _ = false

unfoldable pub has_role : (ComponentRole → Bool) → List StageDefinition → Bool
has_role test [] = false
has_role test (stage ∷ stages) = test stage.role || has_role test stages

-- The arrays that the loop over the connections fills.
pub record Adjacency : Type 0 where
  pub edges : Edges
  pub in_edges : List (List ℕ)

pub data Linking : Type 0 where
  linked : Adjacency → Linking
  broken : TopologyError → Linking

-- The loop over the connections, from one with a number on.
unfoldable pub connect : ℕ → ℕ → Adjacency → List StreamConnection → Run Linking
unfolding add_connection
connect n i links [] = returns (linked links)
connect n i links (conn ∷ connections) =
    if leb n conn.from_stage || leb n conn.to_stage
    then returns (broken (out_of_bounds i conn.from_stage conn.to_stage n))
    else if conn.from_stage == conn.to_stage
    then returns (broken (self_loop i conn.from_stage))
    else (add_connection links.edges conn >>= λ edges.
        expect (get_elem? links.in_edges conn.to_stage) >>= λ sources.
        connect n (suc i)
          (record {
            edges = edges;
            in_edges = set links.in_edges conn.to_stage (sources ++ conn.from_stage ∷ []);
          })
          connections)

-- A stage of a role has an edge that the role does not allow.
unfoldable pub role_violated : Bool → List (List ℕ) → ℕ → Run Bool
role_violated false edges idx = returns false
role_violated true edges idx =
    expect (get_elem? edges idx) >>= λ ends. elim ends [ [] ↦ returns false | _ ∷ _ ↦ returns true ]

unfoldable pub check_roles : ℕ → Adjacency → List StageDefinition → Run Validation
unfolding role_violated
check_roles idx links [] = returns valid
check_roles idx links (stage ∷ stages) =
    role_violated (is_source stage.role) links.in_edges idx >>= λ fed.
    role_violated (is_sink stage.role) links.edges.out_edges idx >>= λ feeds.
    let rest = check_roles (suc idx) links stages in
    if fed
    then returns (invalid (source_has_incoming idx stage.component_id))
    else if feeds
    then returns (invalid (sink_has_outgoing idx stage.component_id))
    else rest

-- Kahn's algorithm, with the number of the stages visited.
unfoldable pub count_visited : ℕ → List (List ℕ) → List ℕ → List ℕ → Run (Option ℕ)
unfolding visit
count_visited zero out_edges in_deg queue = returns none
count_visited (suc fuel) out_edges in_deg [] = returns (some 0)
count_visited (suc fuel) out_edges in_deg (node ∷ queue) =
    expect (get_elem? out_edges node) >>= λ neighbors. visit in_deg queue neighbors >>= λ next.
    count_visited fuel out_edges next.0 next.1 >>= λ rest. elim rest [
      | none ↦ returns none
      | some visited_count ↦ returns (some (suc visited_count))
    ]

-- The sources, marked and queued, from an index on.
unfoldable pub mark_sources :
    ℕ → List Bool → List ℕ → List StageDefinition → Run (List Bool × List ℕ)
mark_sources idx reachable queue [] = returns (reachable, queue)
mark_sources idx reachable queue (stage ∷ stages) = elim (is_source stage.role) [
  | true ↦ expect (get_elem? reachable idx) >>= λ _.
      mark_sources (suc idx) (set reachable idx true) (queue ++ idx ∷ []) stages
  | false ↦ mark_sources (suc idx) reachable queue stages
]

unfoldable pub mark_neighbors : List Bool → List ℕ → List ℕ → Run (List Bool × List ℕ)
mark_neighbors reachable queue [] = returns (reachable, queue)
mark_neighbors reachable queue (neighbor ∷ neighbors) =
    expect (get_elem? reachable neighbor) >>= λ marked. elim marked [
      | true ↦ mark_neighbors reachable queue neighbors
      | false ↦ mark_neighbors (set reachable neighbor true) (queue ++ neighbor ∷ []) neighbors
    ]

-- The breadth-first search.
unfoldable pub spread : ℕ → List (List ℕ) → List Bool → List ℕ → Run (Option (List Bool))
unfolding mark_neighbors
spread zero out_edges reachable queue = returns none
spread (suc fuel) out_edges reachable [] = returns (some reachable)
spread (suc fuel) out_edges reachable (node ∷ queue) =
    expect (get_elem? out_edges node) >>= λ neighbors.
    mark_neighbors reachable queue neighbors >>= λ next. spread fuel out_edges next.0 next.1

unfoldable pub first_unmarked : ℕ → List Bool → Option ℕ
first_unmarked idx [] = none
first_unmarked idx (true ∷ reachable) = first_unmarked (suc idx) reachable
first_unmarked idx (false ∷ reachable) = some idx

-- The steps of `validate` after the first checks, in turn.
module _ (t : FlowTopology) where
  unfoldable pub after_search : Option (List Bool) → Run (Option Validation)
  unfolding first_unmarked
  after_search none = returns none
  after_search (some reachable) = elim (first_unmarked 0 reachable) [
    | none ↦ returns (some valid)
    | some idx ↦ expect (get_elem? t.stages idx) >>= λ stage.
        returns (some (invalid (unreachable idx stage.component_id)))
  ]

  unfoldable pub search_sources : Adjacency → Run (Option Validation)
  unfolding mark_sources spread after_search
  search_sources links = mark_sources 0 (replicate (length t.stages) false) [] t.stages >>= λ start.
      spread (suc (length t.stages)) links.edges.out_edges start.0 start.1 >>= λ found.
      after_search found

  unfoldable pub after_count : Adjacency → Option ℕ → Run (Option Validation)
  unfolding search_sources
  after_count links none = returns none
  after_count links (some visited_count) =
      if visited_count == length t.stages
      then search_sources links
      else returns (some (invalid contains_cycle))

  unfoldable pub after_roles : Adjacency → Validation → Run (Option Validation)
  unfolding count_visited roots after_count
  after_roles links (invalid e) = returns (some (invalid e))
  after_roles links valid =
      let degrees = links.edges.in_degree in
      count_visited (suc (length t.stages + length t.connections)) links.edges.out_edges degrees
        (roots 0 degrees)
      >>= λ visited. after_count links visited

  unfoldable pub after_linking : Linking → Run (Option Validation)
  unfolding check_roles after_roles
  after_linking (broken e) = returns (some (invalid e))
  after_linking (linked links) = check_roles 0 links t.stages >>= λ roles. after_roles links roles

abbrev pub no_edges : ℕ → Adjacency
no_edges n = record {
  edges = record { in_degree = replicate n 0; out_edges = replicate n [] };
  in_edges = replicate n [];
}

-- `none` is a run that is out of fuel.
unfoldable pub validate : FlowTopology → Run (Option Validation)
unfolding has_role is_source is_sink connect after_linking
validate t =
    let n = length t.stages in
    if n == 0
    then returns (some (invalid no_stages))
    else if not (has_role is_source t.stages)
    then returns (some (invalid no_source))
    else if not (has_role is_sink t.stages)
    then returns (some (invalid no_sink))
    else (connect n 0 (no_edges n) t.connections >>= λ linking. after_linking t linking)
