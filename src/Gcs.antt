-- ===== src/Gcs.antt =====
-- gcs: the command line client of the swarm controller.
pub mod Cli
pub mod Control
mod Tests
