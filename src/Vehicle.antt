-- ===== src/Vehicle.antt =====
-- vehicle/kernel: the handlers of remote commands and of streams, and the compute service.
pub mod Remote
pub mod Sinks
pub mod Config
pub mod Launch
pub mod Log
pub mod Startup
pub mod Gabriel
mod Tests
mod KernelTests
