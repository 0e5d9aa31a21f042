-- ===== src/Law.antt =====
-- vehicle/kernel/laws: the control law, the authority that keeps it and the interceptor that
-- enforces it.
pub mod Glob
pub mod Kernel
pub mod Commands
pub mod Authority
pub mod Interceptor
pub mod Samples
mod Tests
