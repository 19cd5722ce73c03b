-- ===== src/Surfaces.antt =====
-- src/surfaces/*.ts: helpers over the client's methods.
pub mod Types
mod Fixtures
pub mod Client
pub mod Preferences
pub mod Discovery
pub mod Runtime
