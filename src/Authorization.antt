-- ===== src/Authorization.antt =====
-- packages/authorization: what a principal may do.
pub mod Members
pub mod Permissions
pub mod Grants
pub mod Counting
pub mod Sorting
pub mod Policy
pub mod Static
mod Tests
