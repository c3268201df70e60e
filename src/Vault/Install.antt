-- ===== src/Vault/Install.antt =====
-- The journaled install of two trees and its rollback (scripts/vault_recovery_restore_core.py).
pub mod Disk
pub mod Swap
pub mod Rollback
pub mod Undo
pub mod Stays
pub mod Loops
pub mod Plan
pub mod Crash
pub mod Examples
