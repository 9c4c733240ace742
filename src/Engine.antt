-- ===== src/Engine.antt =====
-- The engine (engine/): routing, effort, budgets and the chain of attempts.
pub mod Effort
pub mod Budget
pub mod Router
pub mod Chain
