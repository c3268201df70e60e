-- ===== src/Mnemosyne.antt =====
-- The backup generations of Mnemosyne (scripts/mnemosyne_backup_core.py).
pub mod Prune
pub mod Retained
pub mod Examples
