-- ===== src/Server.antt =====
-- The server's domain (server/domain, server/events).
pub mod Approvals
pub mod Attempts
pub mod Consumer
pub mod Failover
pub mod Fleet
pub mod Outbox
pub mod Placement
pub mod RunTasks
pub mod RunTokens
