-- ===== src/Reactor/Topology/Validation/Spec.antt =====
-- What a topology of crates/torvyn-reactor/src/topology.rs has to be.
use torvyn.Common.{ℕ, zero, suc, ◌<◌, ◌≡◌, some, List, true, false, length, get_elem?, returns}
use torvyn.Common.Counts.{count}
use torvyn.Reactor.Topology.{StageDefinition, StreamConnection, FlowTopology, topological_order}
use torvyn.Reactor.Topology.Order.{Before}
use torvyn.Reactor.Topology.Validation.{is_source, is_sink, has_role}
use torvyn.Reactor.Topology.Validation.Entry.{Joins}
use torvyn.Reactor.Scheduling.Build.{AreJoined}

-- A stage that connections lead to from a source.
pub data Reached (t : FlowTopology) : ℕ → Type 0 where
  from_source :
      (i : ℕ) (stage : StageDefinition)
      → get_elem? t.stages i ≡ some stage
      → is_source stage.role ≡ true
      → Reached t i
  along : (u v : ℕ) → Reached t u → Joins t.connections u v → Reached t v

-- A walk of a number of connections that ends at a stage.
abbrev pub Walk : List StreamConnection → ℕ → ℕ → Type 0
Walk connections zero v = Unit {0}
Walk connections (suc m) v = (u : ℕ) × Joins connections u v × Walk connections m u

-- The order that `topological_order` returns has each stage once, and no connection leads back in it.
pub record IsOrder (t : FlowTopology) (order : List ℕ) : Type 0 where
  pub found : topological_order t ≡ returns (some order)
  pub listed : (i : ℕ) → i < length t.stages → count i order ≡ 1
  pub within : (i : ℕ) → 0 < count i order → i < length t.stages
  pub sorted : (u v : ℕ) → Joins t.connections u v → Before u v order

-- What the documentation of a topology promises.
pub record IsSound (t : FlowTopology) : Type 0 where
  pub joined : AreJoined (length t.stages) t.connections
  pub order : List ℕ
  pub ordered : IsOrder t order
  pub source_ends :
      (u v : ℕ) (stage : StageDefinition)
      → Joins t.connections u v
      → get_elem? t.stages v ≡ some stage
      → is_source stage.role ≡ false
  pub sink_ends :
      (u v : ℕ) (stage : StageDefinition)
      → Joins t.connections u v
      → get_elem? t.stages u ≡ some stage
      → is_sink stage.role ≡ false
  pub reached : (i : ℕ) → i < length t.stages → Reached t i
  pub some_source : has_role is_source t.stages ≡ true
  pub some_sink : has_role is_sink t.stages ≡ true
