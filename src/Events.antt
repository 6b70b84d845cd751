-- ===== src/Events.antt =====
-- packages/events: the outbox, the relay that empties it, and the consumers behind the bus.
pub mod Outbox
pub mod Relay
pub mod Rows
pub mod Cleared
pub mod Flush
pub mod Retry
pub mod World
pub mod Sound
pub mod Delivery
pub mod Bus
mod Examples
