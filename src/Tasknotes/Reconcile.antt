-- ===== src/Tasknotes/Reconcile.antt =====
-- The reconciliation of the daily notes' links with the tasks (scripts/tasknotes_mcp_core.py).
pub mod Net
pub mod Links
pub mod Batch
pub mod Places
pub mod Targets
pub mod Compose
pub mod Placed
pub mod Composed
pub mod Collapse
pub mod Examples
