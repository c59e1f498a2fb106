-- ===== src/Reactor/Flow.antt =====
-- crates/torvyn-reactor/src/flow_driver.rs: `run`, from its main loop to the terminal state. What comes
-- from outside in one round of a loop is a moment: the clock, the components' answers, another holder's
-- cancellation of the token, and how the wait ended when no stage was ready. The list of moments bounds
-- the loop: for the drain it is as long as the deadline lets it be.
pub mod Ends
pub mod Finish
pub mod Rounds
use torvyn.Common.{
  ℕ, zero, suc, Bool, true, false, Option, none, some, List, [], ◌∷◌, if◌then◌else◌, length, Text,
  Run, returns, panics, ◌>>=◌,
}
use torvyn.Types.FlowState.{FlowState}
use torvyn.Reactor.Streams.{StreamState}
use torvyn.Reactor.Topology.{FlowTopology}
use torvyn.Reactor.Scheduling.{StageExecution, next_ready_stage}
use torvyn.Reactor.Cancellation.{
  CancellationReason, source_complete, timed_out_after, FlowCancellation, cancel,
  cancellation_reason, terminal_state, FlowError,
}
use torvyn.Reactor.Driver.{FlowDriver, Invoker, Outcome, succeeded, errored, execute_stage}
use torvyn.Reactor.Upkeep.{
  check_backpressure_all, all_streams_complete, propagate_producer_complete, stop_sources,
  discard_all,
}

pub data ErrorPolicy : Type 0 where
  fail_fast : ErrorPolicy
  retry : (max_retries backoff : ℕ) → ErrorPolicy
  skip_element log_and_continue : ErrorPolicy

pub data Wait : Type 0 where
  woke : Wait
  cancelled_while_waiting : CancellationReason → Wait
  deadline_passed : (elapsed : ℕ) → Wait

pub record Moment : Type 0 where
  pub now : ℕ
  pub invoker : Invoker
  pub requested : Option CancellationReason
  pub wait : Wait

pub record Flow : Type 0 where
  pub driver : FlowDriver
  pub cancellation : FlowCancellation

pub data Verdict : Type 0 where
  go_on stop : Verdict

-- What other holders of the token did before the round.
unfoldable pub hear : Option CancellationReason → FlowCancellation → FlowCancellation
unfolding cancel
hear none c = c
hear (some reason) c = cancel c reason

unfoldable pub end_with : Flow → CancellationReason → Flow × Verdict
unfolding cancel
end_with f reason = (record f { cancellation = cancel f.cancellation reason }, stop)

-- Steps 4 and 5 of the loop.
unfoldable pub after_stage :
    (ℕ → Text) → ErrorPolicy → ℕ → StageExecution → Flow → Outcome → Flow × Verdict
unfolding end_with cancellation_reason check_backpressure_all
after_stage show_duration fail_fast now execution f (errored flow_err) =
    end_with f (cancellation_reason show_duration flow_err execution.component_id)
after_stage show_duration policy now execution f outcome = (
  record f {
    driver = record f.driver { streams = (check_backpressure_all now 0 f.driver.streams).0 };
  },
  go_on,
)

-- The `select!` when no stage is ready.
unfoldable pub after_wait : Flow → Wait → Flow × Verdict
unfolding end_with
after_wait f woke = (f, go_on)
after_wait f (cancelled_while_waiting reason) = end_with f reason
after_wait f (deadline_passed elapsed) = end_with f (timed_out_after elapsed)

unfoldable pub idle : FlowTopology → Wait → Flow → Run (Flow × Verdict)
unfolding propagate_producer_complete all_streams_complete end_with after_wait
idle topology wait f =
    propagate_producer_complete topology f.driver.stream_index f.driver.streams >>= λ streams.
    let next : Flow = record f { driver = record f.driver { streams = streams } } in
    returns
      (if all_streams_complete streams then end_with next source_complete else after_wait next wait)

unfoldable pub work :
    (ℕ → Text) → ErrorPolicy → ℕ → Invoker → Flow → StageExecution → Run (Flow × Verdict)
unfolding execute_stage after_stage
work show_duration policy now invoker f execution =
    execute_stage now invoker f.driver execution >>= λ done.
    returns (after_stage show_duration policy now execution (record f { driver = done.0 }) done.1)

module _ (show_duration : ℕ → Text) (topology : FlowTopology) (policy : ErrorPolicy) where
  -- The match on what the policy picked.
  unfoldable pub act : Moment → Flow → Option StageExecution → Run (Flow × Verdict)
  unfolding idle work
  act m f (some execution) = work show_duration policy m.now m.invoker f execution
  act m f none = idle topology m.wait f

  unfoldable pub proceed : Moment → Flow → Run (Flow × Verdict)
  unfolding next_ready_stage act
  proceed m f = next_ready_stage topology f.driver.streams f.driver.stream_index >>= act m f

  -- One round of the main loop.
  unfoldable pub round : Moment → Flow → Run (Flow × Verdict)
  unfolding hear proceed
  round m before =
      let f : Flow = record before { cancellation = hear m.requested before.cancellation } in
      let rest = proceed m f in if f.cancellation.cancelled_flag then returns (f, stop) else rest

  unfoldable pub run_rounds : List Moment → Flow → Run (Flow × Verdict)
  unfolding round
  run_rounds [] f = returns (f, go_on)
  run_rounds (m ∷ moments) f = round m f >>= λ done. elim done.1 [
    | stop ↦ returns (done.0, stop)
    | go_on ↦ run_rounds moments done.0
  ]

-- The loop of `drain_queues`.
unfoldable pub drain_rounds : FlowTopology → List Moment → FlowDriver → Run FlowDriver
unfolding next_ready_stage execute_stage
drain_rounds topology [] d = returns d
drain_rounds topology (m ∷ moments) d =
    next_ready_stage topology d.streams d.stream_index >>= λ found. elim found [
      | none ↦ returns d
      | some execution ↦
          execute_stage m.now m.invoker d execution >>= λ done. drain_rounds topology moments done.0
    ]

unfoldable pub drain_queues : FlowTopology → List Moment → FlowDriver → Run FlowDriver
unfolding drain_rounds discard_all
drain_queues topology moments d = drain_rounds topology moments d >>= λ last.
    discard_all last.streams >>= λ streams. returns (record last { streams = streams })

-- What follows the main loop: the drain, and the terminal state by the reason that the token had
-- before it.
unfoldable pub finish_run : FlowTopology → List Moment → Flow → Run (FlowDriver × FlowState)
unfolding stop_sources drain_queues terminal_state
finish_run topology moments f =
    stop_sources f.driver.stream_index 0 (length topology.stages) f.driver.streams >>= λ streams.
    drain_queues topology moments (record f.driver { streams = streams }) >>= λ drained.
    returns (drained, terminal_state f.cancellation.reason)
