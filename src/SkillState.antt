-- ===== src/SkillState.antt =====
-- The state-owned part of the Hermes configuration (scripts/josemar_skill_state.py).
pub mod Normalize
pub mod Sorted
pub mod Canonical
pub mod Normal
pub mod Config
pub mod RoundTrip
pub mod Allowlist
pub mod Allowed
pub mod Strict
pub mod Nested
pub mod Reads
pub mod Deletes
pub mod Policy
pub mod Examples
pub mod Fallback
pub mod Select
pub mod Merge
pub mod Models
pub mod Restore
pub mod Writes
pub mod Owned
pub mod Overlay
pub mod Schema
pub mod Checks
pub mod Accepted
pub mod Secrets
pub mod Validated
pub mod Overlaid
