-- ===== src/Reactor/Driver/Stages.antt =====
-- The execution of a stage in crates/torvyn-reactor/src/flow_driver.rs: it never panics where there is
-- an input, and keeps the streams' credits.
use torvyn.Common.{
  ℕ, ◌<◌, ◌≡◌, refl, sym, subst, Bool, none, some, Option, List, [], ◌∷◌, length, get_elem?-lt,
  returns, Run,
}
use torvyn.Common.Indices.{AllBelow, AllIn-get}
use torvyn.Reactor.Streams.{StreamElementRef}
use torvyn.Reactor.Scheduling.{
  StageAction, pull_from_source, process_element, push_to_sink, StageExecution,
}
use torvyn.Reactor.Scheduling.Ready.{HasInput, IsRunnable}
use torvyn.Reactor.Driver.Streams.{
  IsSound, Follows, follow, follow_trans, emit-Follows, complete_producers-AllSteady,
  take_input-Follows,
}
use torvyn.Reactor.Driver.{
  FlowDriver, OutputElement, emit_pulled, new_element, emit_each, emit_result, ProcessResult,
  output, filtered, multiple, handle_pulled, Outcome, succeeded, errored, Invocation, timed_out,
  failed, returned, when_returned, execute_pull, execute_process, execute_push, execute_action,
  execute_stage, Invoker, stream_element, StreamElement,
}
use torvyn.Reactor.Cancellation.{component_timeout, component_error}

follow_self : (d : FlowDriver) → IsSound d → Follows d d
follow_self d v = follow d d v v.steady refl refl refl refl

-- A run of the driver that returns, in a driver that follows.
abbrev Done : FlowDriver → Run (FlowDriver × Outcome) → Type 0
Done d r = (d' : FlowDriver) × (outcome : Outcome) × (r ≡ returns (d', outcome)) × Follows d d'

when_returned-Done :
    {A : Type 0} (d before : FlowDriver) (component_id : ℕ) (invoked : Invocation A)
    (next : A → Run (FlowDriver × Outcome))
    → Follows before d
    → ((a : A) → Done before (next a))
    → Done before (when_returned d component_id invoked next)
unfolding when_returned
when_returned-Done d before component_id timed_out next f k =
    (d, errored (component_timeout component_id d.component_invocation_timeout), refl, f)
when_returned-Done d before component_id (failed e) next f k =
    (d, errored (component_error component_id e), refl, f)
when_returned-Done d before component_id (returned a) next f k = k a

follow-IsSound : (a b : FlowDriver) → Follows a b → IsSound b
unfolding Follows
follow-IsSound a b f = f.0

below_of :
    (a b : FlowDriver) (l : List ℕ)
    → Follows a b
    → AllBelow (length a.streams) l
    → AllBelow (length b.streams) l
unfolding Follows
below_of a b l f h = subst (λ n. AllBelow n l) (sym f.1) h

emit_each-Follows :
    (element : OutputElement → ℕ → StreamElementRef) (d : FlowDriver) (outputs : List OutputElement)
    (streams : List ℕ)
    → IsSound d
    → AllBelow (length d.streams) streams
    → (d' : FlowDriver) × (emit_each element d outputs streams ≡ returns d') × Follows d d'
unfolding emit_each Follows
emit_each-Follows element d [] streams v b = (d, refl, follow_self d v)
emit_each-Follows element d (out ∷ outputs) [] v b = (d, refl, follow_self d v)
emit_each-Follows element d (out ∷ outputs) (si ∷ streams) v (here, there) =
    let (d1, run1, f1) = emit-Follows d si (element out) v here in
    let (d2, run2, f2) =
      emit_each-Follows element d1 outputs streams f1.0 (below_of d d1 streams f1 there) in
    (d2, rw run1 run2, follow_trans d d1 d2 f1 f2)

emit_result-Follows :
    (element : OutputElement → ℕ → StreamElementRef) (d : FlowDriver) (result : ProcessResult)
    (streams : List ℕ)
    → IsSound d
    → AllBelow (length d.streams) streams
    → (d' : FlowDriver) × (emit_result element d result streams ≡ returns d') × Follows d d'
unfolding emit_result
emit_result-Follows element d (output out) [] v b = (d, refl, follow_self d v)
emit_result-Follows element d (output out) (si ∷ streams) v (here, there) =
    emit-Follows d si (element out) v here
emit_result-Follows element d filtered streams v b = (d, refl, follow_self d v)
emit_result-Follows element d (multiple outputs) streams v b =
    emit_each-Follows element d outputs streams v b

emit_pulled-Follows :
    (now : ℕ) (d : FlowDriver) (out : OutputElement) (streams : List ℕ)
    → IsSound d
    → AllBelow (length d.streams) streams
    → (d' : FlowDriver) × (emit_pulled now d out streams ≡ returns d') × Follows d d'
unfolding emit_pulled
emit_pulled-Follows now d out [] v b = (d, refl, follow_self d v)
emit_pulled-Follows now d out (si ∷ streams) v (here, there) =
    let marked : FlowDriver = record d { current_element_sequence = some d.next_global_sequence } in
    let f0 = follow d marked v v.steady refl refl refl refl in
    let (d1, run1, f1) =
      emit-Follows marked si (new_element d.next_global_sequence now out)
        (follow-IsSound d marked f0) here in
    (d1, run1, follow_trans d marked d1 f0 f1)

handle_pulled-Done :
    (now : ℕ) (d : FlowDriver) (streams : List ℕ) (pulled : Option OutputElement)
    → IsSound d
    → AllBelow (length d.streams) streams
    → Done d (handle_pulled now d streams pulled)
unfolding handle_pulled
handle_pulled-Done now d streams (some out) v b =
    let (d1, run1, f1) = emit_pulled-Follows now d out streams v b in
    (d1, succeeded, rw run1 refl, f1)
handle_pulled-Done now d streams none v b =
    let (streams', run1, w, l) = complete_producers-AllSteady d.streams streams v.steady b in
    let d1 : FlowDriver = record d { streams = streams' } in
    (d1, succeeded, rw run1 refl, follow d d1 v w l refl refl refl)

-- `execute_pull` returns in a sound driver, for each outcome of the component.
pub pull-Done :
    (now : ℕ) (invoked : Invocation (Option OutputElement)) (d : FlowDriver)
    (stage_idx component_id : ℕ)
    → IsSound d
    → stage_idx < length d.instances
    → stage_idx < length d.stream_index.outputs
    → Done d (execute_pull now invoked d stage_idx component_id)
unfolding execute_pull
pull-Done now invoked d stage_idx component_id v k h =
    let (instance, present) = get_elem?-lt d.instances stage_idx k in
    let (streams, at) = get_elem?-lt d.stream_index.outputs stage_idx h in
    let b = AllIn-get (length d.streams) stage_idx d.stream_index.outputs streams v.in_bounds at in
    rw present (
      when_returned-Done d d component_id invoked _ (follow_self d v)
        (λ pulled. rw at (handle_pulled-Done now d streams pulled v b)))

pub process-Done :
    (invoke : StreamElement → Invocation ProcessResult) (d : FlowDriver)
    (stage_idx component_id input_stream : ℕ)
    → IsSound d
    → stage_idx < length d.instances
    → stage_idx < length d.stream_index.outputs
    → HasInput d.streams input_stream
    → Done d (execute_process invoke d stage_idx component_id input_stream)
unfolding execute_process HasInput
process-Done invoke d stage_idx component_id input_stream v k h (s, at, full_of) =
    let (instance, present) = get_elem?-lt d.instances stage_idx k in
    let (d1, e, run1, f1) = take_input-Follows d input_stream s v at full_of in
    let (streams, out_at) = get_elem?-lt d.stream_index.outputs stage_idx h in
    let b =
      below_of d d1 streams f1 (
        AllIn-get (length d.streams) stage_idx d.stream_index.outputs streams v.in_bounds out_at) in
    rw (present, run1)
      (when_returned-Done d1 d component_id (invoke (stream_element e)) _ f1 (λ result.
        let (d2, run2, f2) =
          emit_result-Follows (new_element e.origin_sequence e.meta.timestamp_ns) d1 result streams
            (follow-IsSound d d1 f1) b in
        rw (out_at, run2) (d2, succeeded, refl, follow_trans d d1 d2 f1 f2)))

pub push-Done :
    (invoke : StreamElement → Invocation Bool) (d : FlowDriver)
    (stage_idx component_id input_stream : ℕ)
    → IsSound d
    → stage_idx < length d.instances
    → HasInput d.streams input_stream
    → Done d (execute_push invoke d stage_idx component_id input_stream)
unfolding execute_push HasInput
push-Done invoke d stage_idx component_id input_stream v k (s, at, full_of) =
    let (instance, present) = get_elem?-lt d.instances stage_idx k in
    let (d1, e, run1, f1) = take_input-Follows d input_stream s v at full_of in
    rw (present, run1)
      (when_returned-Done d1 d component_id (invoke (stream_element e)) _ f1
        (λ signal. (d1, succeeded, refl, f1)))

action-Done :
    (now : ℕ) (invoker : Invoker) (d : FlowDriver) (stage_idx component_id : ℕ)
    (action : StageAction)
    → IsSound d
    → stage_idx < length d.instances
    → IsRunnable d.streams d.stream_index stage_idx action
    → Done d (execute_action now invoker d stage_idx component_id action)
unfolding execute_action IsRunnable
action-Done now invoker d stage_idx component_id pull_from_source v k h =
    pull-Done now (invoker.invoke_pull component_id) d stage_idx component_id v k h
action-Done now invoker d stage_idx component_id (process_element id) v k (h, i) =
    process-Done (invoker.invoke_process component_id) d stage_idx component_id id v k h i
action-Done now invoker d stage_idx component_id (push_to_sink id) v k h =
    push-Done (invoker.invoke_push component_id) d stage_idx component_id id v k h

-- In a build without debug assertions, whatever the components answer, fail with or time out on: a stage
-- that has an instance and what its action needs runs without a panic, and the streams keep one credit
-- for each free place of their queues.
pub execute_stage-IsSound :
    (now : ℕ) (invoker : Invoker) (d : FlowDriver) (execution : StageExecution)
    → IsSound d
    → execution.stage_index < length d.instances
    → IsRunnable d.streams d.stream_index execution.stage_index execution.action
    → (d' : FlowDriver) × (outcome : Outcome) × (execute_stage now invoker d execution
        ≡ returns (d', outcome))
      × IsSound d'
      × (length d'.streams ≡ length d.streams)
      × (d'.stream_index ≡ d.stream_index)
      × (d'.instances ≡ d.instances)
unfolding execute_stage Follows IsRunnable HasInput
execute_stage-IsSound now invoker d execution v k h =
    let cleared : FlowDriver = record d { current_element_sequence = none } in
    let (d', outcome, run, f) =
      action-Done now invoker cleared execution.stage_index execution.component_id execution.action
        (follow-IsSound d cleared (follow d cleared v v.steady refl refl refl refl)) k h in
    (d', outcome, run, f.0, f.1, f.2, f.3)
