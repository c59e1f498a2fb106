-- ===== src/Reactor/TopologyTests.antt =====
-- The theorems about the validation of topologies at a pipeline with a branch, and at one with a cycle.
use torvyn.Common.{ℕ, arith, ◌<◌, ◌≡◌, refl, some, List, [], ◌∷◌, length, returns}
use torvyn.Reactor.Topology.{FlowTopology, StageDefinition, source, processor, sink}
use torvyn.Reactor.Topology.Validation.{
  Validation, validate, valid, invalid, contains_cycle, unreachable,
}
use torvyn.Reactor.Topology.Validation.Spec.{IsSound, Walk}
use torvyn.Reactor.Topology.Validation.Sound.{validate_total, validate-IsSound, validate-Walk}

abbrev stages : List StageDefinition
stages =
    record { component_id = 10; role = source }
    ∷ record { component_id = 20; role = processor }
    ∷ record { component_id = 30; role = processor }
    ∷ record { component_id = 40; role = sink }
    ∷ []

abbrev branched : FlowTopology
branched = record {
  stages = stages;
  connections =
      record { from_stage = 0; to_stage = 2 }
      ∷ record { from_stage = 2; to_stage = 1 }
      ∷ record { from_stage = 0; to_stage = 1 }
      ∷ record { from_stage = 1; to_stage = 3 }
      ∷ [];
}

abbrev cyclic : FlowTopology
cyclic = record {
  stages = stages;
  connections =
      record { from_stage = 0; to_stage = 1 }
      ∷ record { from_stage = 1; to_stage = 2 }
      ∷ record { from_stage = 2; to_stage = 1 }
      ∷ record { from_stage = 1; to_stage = 3 }
      ∷ [];
}

branched_valid : validate branched ≡ returns (some valid)
unfolding validate
branched_valid = refl

cyclic_invalid : validate cyclic ≡ returns (some (invalid contains_cycle))
unfolding validate
cyclic_invalid = refl

apart_invalid :
    validate (record branched { connections = record { from_stage = 0; to_stage = 3 } ∷ [] })
    ≡ returns (some (invalid (unreachable 1 20)))
unfolding validate
apart_invalid = refl

validate_total_example : (v : Validation) × (validate cyclic ≡ returns (some v))
validate_total_example = validate_total cyclic (omega arith)

validate-IsSound_example : IsSound branched
validate-IsSound_example = validate-IsSound branched (omega arith) branched_valid

validate-Walk_example : (i : ℕ) × (i < length cyclic.stages) × Walk cyclic.connections 9 i
validate-Walk_example = validate-Walk cyclic (omega arith) cyclic_invalid 9
