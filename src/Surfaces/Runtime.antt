-- ===== src/Surfaces/Runtime.antt =====
-- src/surfaces/agentRuntime.ts: search results joined with the code that the agents run.
pub mod Types
pub mod Trust
pub mod Normalize
pub mod Lookup
pub mod Selection
pub mod Join
pub mod Masks
mod Tests
