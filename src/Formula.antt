-- ===== src/Formula.antt =====
-- packages/metadata/src/formula.ts: the language of calculated fields and conditions.
pub mod Tokens
pub mod Tree
pub mod Parser
pub mod Steps
pub mod Closed
pub mod Ends
pub mod Printer
pub mod Words
pub mod Leaves
pub mod Operands
pub mod RoundTrip
pub mod Values
pub mod Eval
pub mod Collect
pub mod Collected
pub mod Depends
mod Compiled
mod Examples
