-- ===== src/Lib.antt =====
-- The torvyn runtime: its resource layer, the reactor that drives its pipelines, its
-- capabilities, and parts of its contracts and of what it observes.
--
-- torvyn runs pipelines of WebAssembly components. The host owns every buffer: the resource manager
-- (crates/torvyn-resources) hands buffers from tiered pools to components, keeps them in a table
-- behind generational handles, checks each change of ownership, and charges each component's budget.
-- The reactor (crates/torvyn-reactor) moves elements, which name such buffers, through bounded queues
-- between stages: the driver of a flow lets a policy pick a ready stage, runs it, and settles demand,
-- backpressure and completion. What a component may do at all is decided by matching its requests with
-- the operator's grants (crates/torvyn-security). Two versions of a contract package are compared before
-- one takes the place of the other (crates/torvyn-contracts), and a flow records its spans and its
-- latencies in buffers of fixed size (crates/torvyn-observability). The states of flows and of resources
-- are shared types (crates/torvyn-types).
--
-- Files and what they model:
--   Types/FlowState, Types/ResourceState: crates/torvyn-types/src/state.rs. `InvalidTransition` keeps
--     the two states, which the source prints; the machine's name is the type.
--   Resources/Handle: crates/torvyn-resources/src/handle.rs and error.rs. An owner in an error is the
--     owner that the source prints. A content type is the list of its bytes; a pointer is a number.
--   Resources/Ownership: ownership.rs. A call returns the entry as it is afterwards, or the error.
--   Resources/Table: table.rs. `get_mut` is `get` followed by `put` of the changed entry.
--   Resources/Budget: budget.rs. The registry's map is an association list.
--   Resources/Pool: pool.rs. What the system allocator returns is a parameter.
--   Resources/Payload: buffer.rs, the payloads as bytes of a memory.
--   Resources/Index, Resources/Manager: manager.rs. A call is taken in one piece, as a function of the
--     state, of what the allocator returns and of the time, although the source holds its lock only for
--     the table and the indices, and takes and returns buffers outside of it. A HashSet is a list.
--   Resources/Accounting: accounting.rs. Snapshots have the fields of the statistics.
--   Reactor/Queue, Reactor/Backpressure, Reactor/Fairness: queue.rs, backpressure.rs and fairness.rs of
--     crates/torvyn-reactor/src. What the clock says is a parameter.
--   Reactor/Streams, Reactor/Topology, Reactor/Scheduling: stream.rs with demand.rs, topology.rs and
--     scheduling.rs of the same crate. The depth of a low watermark is a field.
--   Reactor/Topology/Validation: `validate` of topology.rs. An index into `in_degree`, `out_degree` or
--     the adjacency lists may be out of bounds, so the result is a `Run`.
--   Reactor/Cancellation: cancellation.rs and error.rs. The token is its flag and its first reason.
--   Reactor/Driver, Reactor/Upkeep, Reactor/Flow: flow_driver.rs, the execution of a stage (`execute_*`),
--     what happens to all streams between stages, and `run`. A component is what it answers in a round.
--   Security/Scopes, Security/Capabilities: capability.rs of crates/torvyn-security/src, with the
--     printed form (Display) and `from_str` (Parser). A string is the list of its bytes; lowercasing,
--     trimming, and the printing and reading of a number are parameters.
--   Security/Resolver: resolver.rs and the lists of manifest.rs. A HashSet of indices is a list.
--   Security/Guard: guard.rs, the resolved set, and the audit events that a guard emits.
--   Contracts/Package, Contracts/Compatibility: the parsed packages of parser.rs and compatibility.rs
--     of crates/torvyn-contracts/src. A HashMap is the list of its entries in the order of iteration,
--     a version of semver is a parameter, and the changes that the source
--     pushes onto a vector are a returned list.
--   Observability/SpanRing, Observability/Histogram: tracer/ring_buffer.rs and metrics/histogram.rs of
--     crates/torvyn-observability/src. An atomic update is one step; the search that the standard
--     library does over the boundaries is written out.
--   Common: tests, lists and maps over the native numbers, machine words, and `Run`, the result of a
--     call that may panic (an index out of bounds, `expect`, `assert!`).
--
-- Bounds and fuel. `u32` and `u64` wrap as they do without overflow checks, in-degrees too; a theorem
-- that needs a count to stay in range says so. Whether `debug_assert!` is checked is a field of the
-- driver, which `consume_demand` reads; the constructors of the ring and the histogram are those of a
-- build without it. `usize` sums of two positions of one vector do not wrap. The loop of `drain_all` is
-- given one call of `pop` more than the queue has elements; Kahn's loop is given one round more than
-- there are stages and connections, which bound its rounds while no in-degree wraps; `validate` counts
-- with the same loop, and searches breadth first with one round more than there are stages. The main
-- loop and the drain of a flow run over a list of rounds of any length, each with what comes from
-- outside.
--
-- Not modelled: the interleavings of calls of the manager and of the lock-free stack (a call is taken in
-- one piece); the manager's borrows and payload accesses, which call the parts; the coordinator of the
-- flows, and the yields, metrics and events of the driver; the sandbox and the tenants; the parsing and
-- validation of WIT text, and the linking of worlds; percentiles of a histogram, the collector and the
-- export of traces; the engine, the linker, and what only formats, prints or passes on.
pub mod Common
pub mod Types
pub mod Resources
pub mod Reactor
pub mod Security
pub mod Contracts
pub mod Observability
