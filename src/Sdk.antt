-- ===== src/Sdk.antt =====
-- sdk/src/steeleagle_sdk/api and sdk/src/steeleagle_sdk/dsl/types/actions: what missions order the
-- vehicle to do, and how the orders get to the kernel.
pub mod Calls
pub mod Vehicle
pub mod Compute
pub mod Actions
pub mod Procedures
mod Tests
mod LawTests
pub mod Times
