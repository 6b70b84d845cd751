-- ===== src/Org.antt =====
-- apps/org-service: the tree of organization units of a company, with materialized paths.
pub mod Units
pub mod Handlers
pub mod Paths
pub mod Tree
pub mod Move
pub mod Edits
pub mod Invariant
pub mod History
pub mod Authority
pub mod Examples
