-- ===== src/Reactor.antt =====
-- crates/torvyn-reactor: streams between pipeline stages.
pub mod Queue
pub mod Backpressure
pub mod Fairness
pub mod Streams
pub mod Topology
pub mod Scheduling
pub mod Cancellation
pub mod Driver
pub mod Upkeep
pub mod Flow
mod Tests
mod DriverTests
mod TopologyTests
