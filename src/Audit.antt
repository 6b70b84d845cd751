-- ===== src/Audit.antt =====
-- apps/audit-service: the tamper-evident log of a company.
pub mod Json
pub mod Redaction
pub mod Chain
pub mod Verify
pub mod Append
pub mod Writers
pub mod Examples
