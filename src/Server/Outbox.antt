-- ===== src/Server/Outbox.antt =====
-- server/events/outbox.js: the events of a task's changes, and the relay that publishes them.
pub mod Emit
pub mod Relay
pub mod Announced
pub mod Claimed
pub mod Tries
