-- ===== src/Identifiers.antt =====
-- packages/metadata/src/identifiers.ts: identifiers with check digits.
pub mod Checks
pub mod Finite
pub mod Verhoeff
pub mod Luhn
pub mod Typos
mod Examples
