-- ===== src/Backend.antt =====
-- backend/server: the swarm controller, between commanders and vehicles, and the engines that frames
-- and telemetry go to.
pub mod Swarm
pub mod Redis
pub mod Telemetry
pub mod OpenScout
pub mod Avoidance
pub mod Wizard
pub mod Slam
pub mod Delivery
mod DeliveryTests
mod Tests
mod EngineTests
mod WizardTests
mod SlamTests
