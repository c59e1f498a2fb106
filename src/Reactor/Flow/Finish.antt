-- ===== src/Reactor/Flow/Finish.antt =====
-- `run` in crates/torvyn-reactor/src/flow_driver.rs from its start to its terminal state.
use torvyn.Types.FlowState.{FlowState}
use torvyn.Reactor.Flow.{Flow}
