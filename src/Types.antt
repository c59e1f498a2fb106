-- ===== src/Types.antt =====
-- crates/torvyn-types: the state machines of flows and resources.
pub mod FlowState
pub mod ResourceState
mod Tests
