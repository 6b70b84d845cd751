-- ===== src/Access.antt =====
-- apps/access-service: the roles of a company, and who holds them where.
pub mod Roles
pub mod Acl
pub mod Escalation
pub mod Removal
pub mod RoleEdits
pub mod Integrity
pub mod Writes
pub mod Requests
pub mod Grants
pub mod Moves
pub mod Setup
pub mod Again
pub mod PackRoles
pub mod SetupKeeps
pub mod Holders
pub mod Levels
pub mod Nearest
pub mod Listing
pub mod References
pub mod Examples
pub mod SetupExamples
