-- ===== src/Config.antt =====
-- The layers of a company's configuration: merge.ts and diff.ts of packages/metadata.
pub mod Maps
pub mod Layers
pub mod Views
pub mod Entities
pub mod Taxes
pub mod Calendars
pub mod Replay
pub mod Overrides
pub mod Effective
pub mod Archive
pub mod Leftovers
pub mod Retired
pub mod Rollback
mod Examples
