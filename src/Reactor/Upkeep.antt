-- ===== src/Reactor/Upkeep.antt =====
-- crates/torvyn-reactor/src/flow_driver.rs: what the driver does to all streams between the stages:
-- backpressure, completion and the final discard.
pub mod Checks
use torvyn.Common.{
  ℕ, zero, suc, Bool, true, false, Option, none, some, List, [], ◌∷◌, if◌then◌else◌, length,
  get_elem?, all, Run, returns, panics, ◌>>=◌, expect,
}
use torvyn.Reactor.Queue.{drain_all}
use torvyn.Reactor.Backpressure.{
  BackpressureState, is_active, try_activate, try_deactivate, check_backpressure_transition,
}
use torvyn.Reactor.Streams.{StreamElementRef, StreamState, is_complete}
use torvyn.Reactor.Topology.{ComponentRole, source, StageDefinition, FlowTopology}
use torvyn.Reactor.Scheduling.{StreamIndex, all_streams}
use torvyn.Reactor.Driver.{complete_producers}

pub data BackpressureSignal : Type 0 where
  ready pause : BackpressureSignal

unfoldable pub activate : ℕ → StreamState → StreamState × Option BackpressureSignal
unfolding try_activate
activate now stream =
    let (next, changed) = try_activate now stream.backpressure in
    (record stream { backpressure = next }, if changed then some pause else none)

unfoldable pub deactivate : ℕ → StreamState → StreamState × Option BackpressureSignal
unfolding try_deactivate
deactivate now stream =
    let (next, duration) = try_deactivate now stream.backpressure in
    (record stream { backpressure = next }, elim duration [ none ↦ none | some _ ↦ some ready ])

-- The body of the loop of `check_backpressure_all`.
unfoldable pub check_stream : ℕ → StreamState → StreamState × Option BackpressureSignal
unfolding check_backpressure_transition is_active activate deactivate
check_stream now stream =
    elim (check_backpressure_transition stream.queue.len stream.queue.capacity
      stream.low_watermark_depth (is_active stream.backpressure)) [
        | none ↦ (stream, none)
        | some up ↦ if up then activate now stream else deactivate now stream
      ]

-- The streams after the check, from an index on, and the transitions.
unfoldable pub check_backpressure_all :
    ℕ → ℕ → List StreamState → List StreamState × List (ℕ × BackpressureSignal)
unfolding check_stream
check_backpressure_all now stream_idx [] = ([], [])
check_backpressure_all now stream_idx (stream ∷ streams) =
    let (checked, changed) = check_stream now stream in
    let (others, transitions) = check_backpressure_all now (suc stream_idx) streams in
    (
      checked ∷ others,
      elim changed [ none ↦ transitions | some signal ↦ (stream_idx, signal) ∷ transitions ],
    )

unfoldable pub all_streams_complete : List StreamState → Bool
unfolding all is_complete
all_streams_complete streams = all is_complete streams

unfoldable pub propagate_stage :
    StreamIndex → List StreamState → ℕ → List ℕ → Run (List StreamState)
unfolding all_streams is_complete complete_producers
propagate_stage index streams stage_idx [] = returns streams
propagate_stage index streams stage_idx (si ∷ inputs) =
    all_streams streams is_complete (si ∷ inputs) >>= λ all_inputs_complete.
    expect (get_elem? index.outputs stage_idx) >>= λ outputs.
    if all_inputs_complete then complete_producers streams outputs else returns streams

-- The loop of `propagate_producer_complete` on the stages from an index on.
unfoldable pub propagate_from : StreamIndex → ℕ → ℕ → List StreamState → Run (List StreamState)
unfolding propagate_stage
propagate_from index stage_idx zero streams = returns streams
propagate_from index stage_idx (suc left) streams =
    expect (get_elem? index.inputs stage_idx) >>= λ inputs.
    propagate_stage index streams stage_idx inputs >>= λ next.
    propagate_from index (suc stage_idx) left next

unfoldable pub propagate_producer_complete :
    FlowTopology → StreamIndex → List StreamState → Run (List StreamState)
unfolding propagate_from
propagate_producer_complete topology index streams =
    propagate_from index 0 (length topology.stages) streams

unfoldable pub stop_stage : StreamIndex → List StreamState → ℕ → List ℕ → Run (List StreamState)
unfolding complete_producers
stop_stage index streams stage_idx [] =
    expect (get_elem? index.outputs stage_idx) >>= λ outputs. complete_producers streams outputs
stop_stage index streams stage_idx (si ∷ inputs) = returns streams

-- The loop of `run` that marks the outputs of all sources, from an index on.
unfoldable pub stop_sources : StreamIndex → ℕ → ℕ → List StreamState → Run (List StreamState)
unfolding stop_stage
stop_sources index stage_idx zero streams = returns streams
stop_sources index stage_idx (suc left) streams =
    expect (get_elem? index.inputs stage_idx) >>= λ inputs.
    stop_stage index streams stage_idx inputs >>= λ next.
    stop_sources index (suc stage_idx) left next

-- The discard at the end of `drain_queues`. The fuel of `drain_all` is enough.
unfoldable pub discard_all : List StreamState → Run (List StreamState)
unfolding drain_all
discard_all [] = returns []
discard_all (stream ∷ streams) = drain_all stream.queue >>= λ drained. elim drained [
  | none ↦ panics
  | some (queue, remaining) ↦
      discard_all streams >>= λ others. returns (record stream { queue = queue } ∷ others)
]

-- Whom `notify_producers` calls: the sources in front of the streams that changed.
unfoldable pub source_of : FlowTopology → StreamIndex → ℕ → Option ℕ
source_of topology index stream_idx = elim (get_elem? index.producers stream_idx) [
  | none ↦ none
  | some stage_idx ↦ elim (get_elem? topology.stages stage_idx) [
    | none ↦ none
    | some stage ↦ elim stage.role [ source ↦ some stage.component_id | _ ↦ none ]
  ]
]

unfoldable pub notify_producers :
    FlowTopology → StreamIndex → List (ℕ × BackpressureSignal) → List (ℕ × BackpressureSignal)
unfolding source_of
notify_producers topology index [] = []
notify_producers topology index ((stream_idx, signal) ∷ transitions) =
    let rest = notify_producers topology index transitions in
    elim (source_of topology index stream_idx) [
      | none ↦ rest
      | some component_id ↦ (component_id, signal) ∷ rest
    ]
