-- ===== src/Reactor/Driver.antt =====
-- crates/torvyn-reactor/src/flow_driver.rs: the execution of one stage and the upkeep of the streams.
-- What a component returns, fails with or times out on is an argument, as is the clock. `expect` on a
-- missing value and an index out of bounds are panics. Events, metrics and logs are left out.
pub mod Delivery
pub mod Stages
pub mod Streams
use torvyn.Common.{
  ℕ, zero, suc, ◌+◌, Bool, true, false, not, ◌&&◌, Option, none, some, List, [], ◌∷◌, ◌++◌, ◌==◌,
  if◌then◌else◌, length, get_elem?, set, all, Text, Run, returns, panics, ◌>>=◌, expect,
}
use torvyn.Common.Word.{u64}
use torvyn.Reactor.Cancellation.{ProcessError, FlowError, component_error, component_timeout}
use torvyn.Reactor.Queue.{PushResult, push, pop, is_empty}
use torvyn.Reactor.Streams.{
  ElementMeta, StreamElementRef, StreamState, is_complete, replenish_demand, consume_demand,
}
use torvyn.Reactor.Scheduling.{
  StageAction, pull_from_source, process_element, push_to_sink, StageExecution, StreamIndex,
}

pub data Outcome : Type 0 where
  succeeded : Outcome
  errored : FlowError → Outcome

-- An invocation under `timeout`.
pub data Invocation (A : Type 0) : Type 0 where
  timed_out : Invocation A
  failed : ProcessError → Invocation A
  returned : A → Invocation A

pub record OutputElement : Type 0 where
  pub payload : ℕ
  pub content_type : Text

pub data ProcessResult : Type 0 where
  output : OutputElement → ProcessResult
  filtered : ProcessResult
  multiple : List OutputElement → ProcessResult

pub record StreamElement : Type 0 where
  pub meta : ElementMeta
  pub payload : ℕ

pub record FlowDriver : Type 0 where
  pub streams : List StreamState
  pub stream_index : StreamIndex
  pub next_global_sequence : ℕ  -- u64
  pub current_element_sequence : Option ℕ
  pub component_invocation_timeout : ℕ
  pub instances : List ℕ  -- of the engine, one per stage
  pub debug_assertions : Bool  -- how the driver is built

-- The two `map_err`s with their `?`.
unfoldable pub when_returned :
    {A : Type 0}
    → FlowDriver
    → ℕ
    → Invocation A
    → (A → Run (FlowDriver × Outcome))
    → Run (FlowDriver × Outcome)
when_returned d component_id timed_out next =
    returns (d, errored (component_timeout component_id d.component_invocation_timeout))
when_returned d component_id (failed e) next = returns (d, errored (component_error component_id e))
when_returned d component_id (returned a) next = next a

-- The element gets the next sequence number and goes into a stream, or is dropped when that is full.
unfoldable pub emit : FlowDriver → ℕ → (ℕ → StreamElementRef) → Run FlowDriver
unfolding push consume_demand
emit d si element = expect (get_elem? d.streams si) >>= λ stream.
    consume_demand d.debug_assertions stream >>= λ paid.
    push paid.queue (element d.next_global_sequence) >>= λ pushed. returns (record d {
      streams = set d.streams si (record paid { queue = pushed.0 });
      next_global_sequence = u64 (d.next_global_sequence + 1);
    })

unfoldable pub new_element : ℕ → ℕ → OutputElement → ℕ → StreamElementRef
new_element origin_sequence timestamp_ns out seq = record {
  sequence = seq;
  origin_sequence = origin_sequence;
  buffer_handle = out.payload;
  meta = record { sequence = seq; timestamp_ns = timestamp_ns; content_type = out.content_type };
}

-- `output_streams.first()`, and the element of `execute_pull`: it begins its own origin sequence.
unfoldable pub emit_pulled : ℕ → FlowDriver → OutputElement → List ℕ → Run FlowDriver
unfolding emit new_element
emit_pulled now d out [] = returns d
emit_pulled now d out (si ∷ others) =
    let seq = d.next_global_sequence in
    emit (record d { current_element_sequence = some seq }) si (new_element seq now out)

-- `self.streams[si].producer_complete = true` for the streams of a list of indices.
unfoldable pub complete_producers : List StreamState → List ℕ → Run (List StreamState)
complete_producers streams [] = returns streams
complete_producers streams (si ∷ indices) = expect (get_elem? streams si) >>= λ stream.
    complete_producers (set streams si (record stream { producer_complete = true })) indices

-- The match on what `invoke_pull` returned.
unfoldable pub handle_pulled :
    ℕ → FlowDriver → List ℕ → Option OutputElement → Run (FlowDriver × Outcome)
unfolding emit_pulled complete_producers
handle_pulled now d output_streams (some out) =
    emit_pulled now d out output_streams >>= λ after. returns (after, succeeded)
handle_pulled now d output_streams none = complete_producers d.streams output_streams >>= λ streams.
    returns (record d { streams = streams }, succeeded)

unfoldable pub execute_pull :
    ℕ → Invocation (Option OutputElement) → FlowDriver → ℕ → ℕ → Run (FlowDriver × Outcome)
unfolding when_returned handle_pulled
execute_pull now invoked d stage_idx component_id =
    expect (get_elem? d.instances stage_idx) >>= λ _.
    when_returned d component_id invoked (λ pulled.
      expect (get_elem? d.stream_index.outputs stage_idx) >>= λ output_streams.
      handle_pulled now d output_streams pulled)

-- `iter().position(|s| s.id == input_stream_id)`, from an index on.
unfoldable pub position : ℕ → ℕ → List StreamState → Option ℕ
position i id [] = none
position i id (s ∷ streams) =
    let rest = position (suc i) id streams in if s.id == id then some i else rest

-- The head of `execute_process` and of `execute_push`: the element is taken from its stream, which
-- gets a credit back.
unfoldable pub take_input : FlowDriver → ℕ → Run (FlowDriver × StreamElementRef)
unfolding position pop replenish_demand
take_input d input_stream_id = expect (position 0 input_stream_id d.streams) >>= λ input_si.
    expect (get_elem? d.streams input_si) >>= λ stream. pop stream.queue >>= λ popped.
    expect popped.1 >>= λ elem_ref. returns (
      record d {
        streams = set d.streams input_si (replenish_demand (record stream { queue = popped.0 }));
        current_element_sequence = some elem_ref.origin_sequence;
      },
      elem_ref,
    )

abbrev pub stream_element : StreamElementRef → StreamElement
stream_element e = record { meta = e.meta; payload = e.buffer_handle }

-- The loop over `outputs`: the i-th goes to the i-th output stream, and those past the last stream go
-- nowhere.
unfoldable pub emit_each :
    (OutputElement → ℕ → StreamElementRef)
    → FlowDriver
    → List OutputElement
    → List ℕ
    → Run FlowDriver
unfolding emit
emit_each element d [] output_streams = returns d
emit_each element d (out ∷ outputs) [] = returns d
emit_each element d (out ∷ outputs) (si ∷ output_streams) =
    emit d si (element out) >>= λ after. emit_each element after outputs output_streams

unfoldable pub emit_result :
    (OutputElement → ℕ → StreamElementRef) → FlowDriver → ProcessResult → List ℕ → Run FlowDriver
unfolding emit emit_each
emit_result element d (output out) [] = returns d
emit_result element d (output out) (si ∷ others) = emit d si (element out)
emit_result element d filtered output_streams = returns d
emit_result element d (multiple outputs) output_streams = emit_each element d outputs output_streams

unfoldable pub execute_process :
    (StreamElement → Invocation ProcessResult) → FlowDriver → ℕ → ℕ → ℕ → Run (FlowDriver × Outcome)
unfolding take_input when_returned emit_result new_element
execute_process invoke_process d stage_idx component_id input_stream_id =
    expect (get_elem? d.instances stage_idx) >>= λ _. take_input d input_stream_id >>= λ taken.
    when_returned taken.0 component_id (invoke_process (stream_element taken.1)) (λ result.
      expect (get_elem? d.stream_index.outputs stage_idx) >>= λ output_streams.
      emit_result (new_element taken.1.origin_sequence taken.1.meta.timestamp_ns) taken.0 result
        output_streams
      >>= λ after. returns (after, succeeded))

unfoldable pub execute_push :
    (StreamElement → Invocation Bool) → FlowDriver → ℕ → ℕ → ℕ → Run (FlowDriver × Outcome)
unfolding take_input when_returned
execute_push invoke_push d stage_idx component_id input_stream_id =
    expect (get_elem? d.instances stage_idx) >>= λ _. take_input d input_stream_id >>= λ taken.
    when_returned taken.0 component_id (invoke_push (stream_element taken.1))
      (λ signal. returns (taken.0, succeeded))

-- The components of a flow: what each of them answers.
pub record Invoker : Type 0 where
  pub invoke_pull : (component_id : ℕ) → Invocation (Option OutputElement)
  pub invoke_process : (component_id : ℕ) → StreamElement → Invocation ProcessResult
  pub invoke_push : (component_id : ℕ) → StreamElement → Invocation Bool

unfoldable pub execute_action :
    ℕ → Invoker → FlowDriver → ℕ → ℕ → StageAction → Run (FlowDriver × Outcome)
unfolding execute_pull execute_process execute_push
execute_action now invoker d stage_idx component_id pull_from_source =
    execute_pull now (invoker.invoke_pull component_id) d stage_idx component_id
execute_action now invoker d stage_idx component_id (process_element input_stream) =
    execute_process (invoker.invoke_process component_id) d stage_idx component_id input_stream
execute_action now invoker d stage_idx component_id (push_to_sink input_stream) =
    execute_push (invoker.invoke_push component_id) d stage_idx component_id input_stream

unfoldable pub execute_stage :
    ℕ → Invoker → FlowDriver → StageExecution → Run (FlowDriver × Outcome)
unfolding execute_action
execute_stage now invoker d execution =
    execute_action now invoker (record d { current_element_sequence = none }) execution.stage_index
      execution.component_id execution.action
