-- ===== src/Reactor/Scheduling/Validated.antt =====
-- The policy of crates/torvyn-reactor/src/scheduling.rs on the topologies that `validate` accepts.
