-- ===== src/Engine/Router.antt =====
-- engine/router.js: which runner may take a job.
pub mod Windows
pub mod Classify
pub mod Track
pub mod Pick
pub mod Room
pub mod Tallies
pub mod Ladder
pub mod Rungs
