-- ===== src/Surfaces/Discovery.antt =====
-- src/surfaces/agentDiscovery.ts: the choice of a provider among those that a search finds.
pub mod Failures
pub mod Ranking
pub mod Diagnosis
pub mod Search
pub mod Keys
pub mod Trust
pub mod Selection
mod Tests
