-- ===== src/Resources.antt =====
-- crates/torvyn-resources: buffers, their table, ownership, budgets.
pub mod Handle
pub mod Ownership
pub mod Table
pub mod Budget
pub mod Pool
pub mod Payload
pub mod Index
pub mod Manager
pub mod Accounting
