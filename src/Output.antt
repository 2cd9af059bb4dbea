-- ===== src/Output.antt =====
-- src/output: the consumers of snapshots and what they send.
pub mod Registry
pub mod Patterns
pub mod Osc
