-- ===== src/Tests.antt =====
-- Concrete inputs for the theorems, one module per group of parts.
pub mod Fixtures
pub mod Limits
pub mod Routing
pub mod Chains
pub mod Inbox
pub mod Events
pub mod Placing
pub mod Machines
pub mod Jobs
pub mod Tasks
pub mod Deliveries
pub mod Tokens
