-- ===== src/Dsl.antt =====
-- sdk/src/steeleagle_sdk/dsl/compiler: from the parse tree of a mission to its checked
-- intermediate representation.
pub mod Ir
pub mod Registry
pub mod Hints
pub mod Completions
pub mod Server
pub mod Loader
pub mod Transformer
pub mod Resolver
pub mod Validator
pub mod Events
pub mod Samples
mod Tests
mod ServerTests
