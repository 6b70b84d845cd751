-- ===== src/Tenancy.antt =====
-- packages/tenancy: the context of a unit of work, and the hooks that keep each company's documents apart.
pub mod Context
pub mod Plugin
pub mod Queries
pub mod Updates
pub mod Stages
pub mod Allowed
pub mod Driver
pub mod Effects
pub mod Unseen
pub mod Isolation
mod Examples
