-- ===== src/Reactor/Topology.antt =====
-- crates/torvyn-reactor/src/topology.rs: the stages of a flow and their connections, and the order of
-- Kahn's algorithm. An index out of bounds is a panic, and an in-degree wraps as a `u32`, as it does
-- without overflow checks. The loop runs on fuel.
pub mod Fuel
pub mod Kahn
pub mod Order
pub mod Validation
use torvyn.Common.{
  ℕ, zero, suc, ◌+◌, ◌-◌, Option, none, some, List, [], ◌∷◌, ◌++◌, ◌==◌, if◌then◌else◌, length,
  get_elem?, set, replicate, Run, returns, ◌>>=◌, expect,
}
use torvyn.Common.Word.{u32, u32_max}

-- torvyn_types::ComponentRole.
pub data ComponentRole : Type 0 where
  source processor sink filter router : ComponentRole

-- The stage's budget and configuration are the engine's.
pub record StageDefinition : Type 0 where
  pub component_id : ℕ
  pub role : ComponentRole

pub record StreamConnection : Type 0 where
  pub from_stage : ℕ
  pub to_stage : ℕ

pub record FlowTopology : Type 0 where
  pub stages : List StageDefinition
  pub connections : List StreamConnection

-- The arrays `in_degree` and `out_edges`.
pub record Edges : Type 0 where
  pub in_degree : List ℕ
  pub out_edges : List (List ℕ)

unfoldable pub add_connection : Edges → StreamConnection → Run Edges
add_connection e conn = do
  targets ← expect (get_elem? e.out_edges conn.from_stage)
  degree ← expect (get_elem? e.in_degree conn.to_stage)
  returns (record {
    in_degree = set e.in_degree conn.to_stage (u32 (degree + 1));
    out_edges = set e.out_edges conn.from_stage (targets ++ conn.to_stage ∷ []);
  })

unfoldable pub add_connections : Edges → List StreamConnection → Run Edges
unfolding add_connection
add_connections e [] = returns e
add_connections e (conn ∷ connections) =
    add_connection e conn >>= λ next. add_connections next connections

-- The indices from `idx` on whose in-degree is zero.
unfoldable pub roots : ℕ → List ℕ → List ℕ
roots idx [] = []
roots idx (deg ∷ in_degree) =
    let rest = roots (suc idx) in_degree in if deg == 0 then idx ∷ rest else rest

-- `in_degree[neighbor] -= 1`, which wraps, and the neighbors that reach zero join the queue.
unfoldable pub visit : List ℕ → List ℕ → List ℕ → Run (List ℕ × List ℕ)
visit in_degree queue [] = returns (in_degree, queue)
visit in_degree queue (neighbor ∷ neighbors) = expect (get_elem? in_degree neighbor) >>= λ degree.
    elim degree [
      | zero ↦ visit (set in_degree neighbor u32_max) queue neighbors
      | suc left ↦
          visit (set in_degree neighbor left) (if left == 0 then queue ++ neighbor ∷ [] else queue)
            neighbors
    ]

unfoldable pub kahn : ℕ → List (List ℕ) → List ℕ → List ℕ → Run (Option (List ℕ))
unfolding visit
kahn zero out_edges in_degree queue = returns none
kahn (suc fuel) out_edges in_degree [] = returns (some [])
kahn (suc fuel) out_edges in_degree (node ∷ queue) =
    expect (get_elem? out_edges node) >>= λ neighbors. visit in_degree queue neighbors >>= λ next.
    kahn fuel out_edges next.0 next.1 >>= λ rest. elim rest [
      | none ↦ returns none
      | some order ↦ returns (some (node ∷ order))
    ]

-- Every stage is queued once at the start or once for each connection into it.
unfoldable pub topological_order : FlowTopology → Run (Option (List ℕ))
unfolding add_connections kahn roots
topological_order t =
    let n = length t.stages in
    add_connections (record { in_degree = replicate n 0; out_edges = replicate n [] }) t.connections
    >>= λ e. kahn (suc (n + length t.connections)) e.out_edges e.in_degree (roots 0 e.in_degree)
