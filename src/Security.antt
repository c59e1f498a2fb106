-- ===== src/Security.antt =====
-- crates/torvyn-security: what a component may do.
pub mod Scopes
pub mod Capabilities
pub mod Guard
pub mod Resolver
mod Tests
