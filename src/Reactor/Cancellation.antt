-- ===== src/Reactor/Cancellation.antt =====
-- crates/torvyn-reactor/src/cancellation.rs, the errors of crates/torvyn-reactor/src/error.rs, and the
-- reasons and ends of a flow in crates/torvyn-reactor/src/flow_driver.rs. A duration is a number of
-- nanoseconds; how it is printed is a parameter.
use torvyn.Common.{ℕ, Bool, true, false, Option, none, some, ◌++◌, Text, codes}
use torvyn.Types.FlowState.{FlowState, completed, cancelled, failed}

-- torvyn_types::ProcessError.
pub data ProcessError : Type 0 where
  invalid_input unavailable internal fatal : (detail : Text) → ProcessError
  deadline_exceeded : ProcessError

pub data ProcessErrorKind : Type 0 where
  of_invalid_input of_unavailable of_internal of_deadline_exceeded of_fatal : ProcessErrorKind

unfoldable pub kind_of : ProcessError → ProcessErrorKind
kind_of (invalid_input _) = of_invalid_input
kind_of (unavailable _) = of_unavailable
kind_of (internal _) = of_internal
kind_of deadline_exceeded = of_deadline_exceeded
kind_of (fatal _) = of_fatal

pub data FlowError : Type 0 where
  component_error : (component : ℕ) → (error : ProcessError) → FlowError
  flow_deadline_exceeded : (deadline elapsed : ℕ) → FlowError
  component_timeout : (component timeout : ℕ) → FlowError
  resource_exhausted : (detail : Text) → FlowError
  drain_timeout : (timeout : ℕ) → FlowError
  reactor_internal : (message : Text) → FlowError

unfoldable pub kind : FlowError → ProcessErrorKind
unfolding kind_of
kind (component_error component error) = kind_of error
kind (component_timeout component timeout) = of_deadline_exceeded
kind (flow_deadline_exceeded deadline elapsed) = of_deadline_exceeded
kind (resource_exhausted detail) = of_internal
kind (drain_timeout timeout) = of_internal
kind (reactor_internal message) = of_internal

unfoldable pub component_of : FlowError → Option ℕ
component_of (component_error component error) = some component
component_of (component_timeout component timeout) = some component
component_of _ = none

pub data CancellationReason : Type 0 where
  operator_request : CancellationReason
  timed_out_after : (elapsed : ℕ) → CancellationReason
  downstream_error : (component : ℕ) → (error : ProcessError) → CancellationReason
  resource_exhaustion : (detail : Text) → CancellationReason
  source_complete : CancellationReason

unfoldable pub cancellation_reason : (ℕ → Text) → FlowError → ℕ → CancellationReason
cancellation_reason show_duration (component_error component error) executing =
    downstream_error component error
cancellation_reason show_duration (component_timeout component timeout) executing =
    downstream_error component deadline_exceeded
cancellation_reason show_duration (flow_deadline_exceeded deadline elapsed) executing =
    timed_out_after elapsed
cancellation_reason show_duration (resource_exhausted detail) executing = resource_exhaustion detail
cancellation_reason show_duration (drain_timeout timeout) executing = downstream_error executing (
    internal (
      codes "[E0424] Drain phase timed out after "
      ++ show_duration timeout
      ++ codes ". Remaining elements were discarded. Increase drain timeout "
      ++ codes "or investigate slow consumer components."))
cancellation_reason show_duration (reactor_internal message) executing =
    downstream_error executing
      (internal (codes "[E0429] Internal reactor error: " ++ message ++ codes ". This is a bug."))

-- The shared state of a token; `reason` is set once.
pub record FlowCancellation : Type 0 where
  pub cancelled_flag : Bool
  pub reason : Option CancellationReason

abbrev pub new_cancellation : FlowCancellation
new_cancellation = record { cancelled_flag = false; reason = none }

unfoldable pub cancel : FlowCancellation → CancellationReason → FlowCancellation
cancel c reason = record {
  cancelled_flag = true;
  reason = elim c.reason [ none ↦ some reason | some first ↦ some first ];
}

unfoldable pub terminal_state : Option CancellationReason → FlowState
terminal_state (some source_complete) = completed
terminal_state (some operator_request) = cancelled
terminal_state (some _) = failed
terminal_state none = completed
