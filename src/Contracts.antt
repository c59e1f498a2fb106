-- ===== src/Contracts.antt =====
-- crates/torvyn-contracts: the parsed packages of interfaces, and the comparison of two versions.
pub mod Package
pub mod Compatibility
mod Tests
