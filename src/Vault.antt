-- ===== src/Vault.antt =====
-- Vault recovery (scripts/vault_recovery_restore_core.py).
pub mod Install
