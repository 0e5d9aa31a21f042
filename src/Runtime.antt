-- ===== src/Runtime.antt =====
-- sdk/src/steeleagle_sdk/dsl/runtime and vehicle/mission: the state machine that runs a mission, the
-- session that holds it, and the service that starts and stops it.
pub mod Fsm
pub mod Session
pub mod Service
pub mod Store
pub mod Resources
mod Tests
mod ResourceTests
