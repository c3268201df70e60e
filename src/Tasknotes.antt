-- ===== src/Tasknotes.antt =====
-- TaskNotes (scripts/tasknotes_mcp_core.py).
pub mod Reconcile
pub mod Engine
