-- ===== src/Server.antt =====
-- pkg/server.go: the signalling server.
pub mod State
pub mod Listeners
pub mod Listening
pub mod Routes
pub mod Routing
pub mod Health
pub mod Select
pub mod Registry
pub mod Handler
mod Tests
mod MuxTests
pub mod Guards
pub mod Sound
pub mod Lifecycle
pub mod Opening
pub mod Session
pub mod Offering
pub mod Channels
pub mod Serving
pub mod Abstract
pub mod Samples
pub mod Refusals
pub mod Atomic
pub mod Targets
pub mod Front
