-- ===== src/Engine/Chain.antt =====
-- engine/chain.js: the attempts of one task, where their chain ends, and what happens next.
pub mod Attempt
pub mod Facts
pub mod Settle
pub mod Runner
pub mod Step
pub mod Trail
pub mod Switch
pub mod Retry
