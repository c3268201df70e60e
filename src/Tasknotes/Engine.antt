-- ===== src/Tasknotes/Engine.antt =====
-- The operations on tasks (`TaskNotesEngine` of scripts/tasknotes_mcp_core.py).
pub mod Effects
pub mod Marks
pub mod Observed
pub mod Services
pub mod Validate
pub mod Publish
pub mod Prepare
pub mod Links
pub mod Page
pub mod Requests
pub mod Profile
pub mod Operations
pub mod Silent
pub mod Account
pub mod Guards
pub mod Captured
pub mod Linked
pub mod Accounted
pub mod Written
pub mod Deleted
pub mod Outcomes
pub mod Refused
pub mod Planning
pub mod Loaded
pub mod Uniqueness
pub mod Distinct
pub mod Promised
pub mod Checked
pub mod Reported
mod Examples
mod ProfileExamples
