-- ===== src/Reactor/DriverTests.antt =====
-- The theorems about the flow driver at a source and a sink with a stream of capacity two between them,
-- which holds one element.
use torvyn.Common.{
  ℕ, zero, suc, ◌+◌, ◌%◌, ◌<◌, ◌≡◌, refl, true, false, none, some, List, [], ◌∷◌, arith, get_elem?,
  length, returns,
}
use torvyn.Types.FlowState.{FlowState}
use torvyn.Reactor.Backpressure.{normal}
use torvyn.Reactor.Streams.{producer_can_produce, StreamElementRef, StreamState}
use torvyn.Reactor.Streams.Credit.{Steady, AllSteady}
use torvyn.Reactor.Topology.{FlowTopology, source, sink}
use torvyn.Reactor.Scheduling.{StageExecution, StreamIndex, push_to_sink, next_ready_stage, walk}
use torvyn.Reactor.Scheduling.Ready.{AreNamed, IsRunnable, next_ready_stage-IsRunnable}
use torvyn.Reactor.Scheduling.Blocked.{AllBlocked, walk-AllBlocked}
use torvyn.Reactor.Cancellation.{new_cancellation}
use torvyn.Reactor.Driver.{emit, FlowDriver, Invoker, Outcome, execute_stage, returned, filtered}
use torvyn.Reactor.Driver.Streams.{IsSound}
use torvyn.Reactor.Driver.Delivery.{IsDelivered, emit-IsDelivered}
use torvyn.Reactor.Driver.Stages.{execute_stage-IsSound}
use torvyn.Reactor.Flow.{Moment, Flow, woke}

abbrev pair : FlowTopology
pair = record {
  stages =
      record { component_id = 10; role = source } ∷ record { component_id = 20; role = sink } ∷ [];
  connections = record { from_stage = 0; to_stage = 1 } ∷ [];
}

abbrev index : StreamIndex
index = record { inputs = [] ∷ (0 ∷ []) ∷ []; outputs = (0 ∷ []) ∷ [] ∷ []; producers = 0 ∷ [] }

abbrev element : StreamElementRef
element = record {
  sequence = 0;
  origin_sequence = 0;
  buffer_handle = 77;
  meta = record { sequence = 0; timestamp_ns = 5; content_type = [] };
}

abbrev stream : StreamState
stream = record {
  id = 0;
  queue = record { buf = some element ∷ none ∷ []; head = 0; len = 1; capacity = 2 };
  backpressure = normal;
  low_watermark_depth = 1;
  demand = 1;
  producer_complete = false;
}

abbrev driver : FlowDriver
driver = record {
  streams = stream ∷ [];
  stream_index = index;
  next_global_sequence = 1;
  current_element_sequence = none;
  component_invocation_timeout = 1000;
  instances = 10 ∷ 20 ∷ [];
  debug_assertions = false;
}

abbrev invoker : Invoker
invoker = record {
  invoke_pull = λ _. returned none;
  invoke_process = λ _ _. returned filtered;
  invoke_push = λ _ _. returned true;
}

stream-Steady : Steady 0 stream
stream-Steady = record {
  named = refl;
  elements = element ∷ [];
  held = record {
    sized = refl;
    in_ring = omega arith;
    counted = refl;
    fits = omega arith;
    slots = at;
  };
  credit = refl;
  in_word = omega arith;
}
  where
    at :
        (i : ℕ)
        → i < 2
        → get_elem? (some element ∷ none ∷ []) ((0 + i) % 2) ≡ some (get_elem? (element ∷ []) i)
    at zero h = refl
    at (suc zero) h = refl
    at (suc (suc i)) h = absurd (omega arith)

driver-IsSound : IsSound driver
unfolding AllSteady
driver-IsSound = record {
  steady = (stream-Steady, tt);
  in_bounds = ((omega arith, tt), (tt, tt));
  release = refl;
}

abbrev to_sink : StageExecution
to_sink = record { component_id = 20; stage_index = 1; action = push_to_sink 0 }

picked : next_ready_stage pair (stream ∷ []) index ≡ returns (some to_sink)
unfolding next_ready_stage
picked = refl

driver-AreNamed : AreNamed (stream ∷ [])
unfolding AreNamed
driver-AreNamed zero s h = ground (arith, h)
driver-AreNamed (suc i) s h = absurd (ground (arith, h))

next_ready_stage-IsRunnable_example : IsRunnable (stream ∷ []) index 1 (push_to_sink 0)
next_ready_stage-IsRunnable_example =
    next_ready_stage-IsRunnable pair (stream ∷ []) index to_sink driver-AreNamed picked

execute_stage-IsSound_example :
    (d : FlowDriver) × (outcome : Outcome) × (execute_stage 9 invoker driver to_sink
      ≡ returns (d, outcome))
    × IsSound d
    × (length d.streams ≡ 1)
    × (d.stream_index ≡ index)
    × (d.instances ≡ 10 ∷ 20 ∷ [])
execute_stage-IsSound_example =
    execute_stage-IsSound 9 invoker driver to_sink driver-IsSound (omega arith)
      (next_ready_stage-IsRunnable pair (stream ∷ []) index to_sink driver-AreNamed picked)

abbrev drained : StreamState
drained = record stream {
  queue = record { buf = none ∷ none ∷ []; head = 1; len = 0; capacity = 2 };
  demand = 2;
  producer_complete = true;
}

nothing_ready : walk (drained ∷ []) pair index (1 ∷ 0 ∷ []) ≡ returns none
unfolding walk
nothing_ready = refl

walk-AllBlocked_example : AllBlocked (drained ∷ []) pair index (1 ∷ 0 ∷ [])
walk-AllBlocked_example = walk-AllBlocked (drained ∷ []) pair index (1 ∷ 0 ∷ []) nothing_ready

abbrev full_stream : StreamState
full_stream = record stream {
  queue = record { buf = some element ∷ some element ∷ []; head = 0; len = 2; capacity = 2 };
  demand = 0;
}

abbrev moment : Moment
moment = record { now = 9; invoker = invoker; requested = none; wait = woke }

abbrev three : List Moment
three = moment ∷ moment ∷ moment ∷ []

abbrev begun : Flow
begun = record { driver = driver; cancellation = new_cancellation }

has_room : producer_can_produce stream ≡ true
unfolding producer_can_produce
has_room = refl

emit-IsDelivered_example :
    (d : FlowDriver) × (emit driver 0 (λ seq. record element { sequence = seq }) ≡ returns d)
    × IsDelivered driver d 0 stream (record element { sequence = 1 })
unfolding AllSteady
emit-IsDelivered_example =
    emit-IsDelivered driver 0 (λ seq. record element { sequence = seq }) stream (stream-Steady, tt)
      refl has_room
