-- ===== src/Transports/WebSocket.antt =====
-- src/transports/webSocket.ts: the requests and the subscriptions of a transport over one socket at
-- a time.
pub mod State
pub mod Messages
pub mod Steps
pub mod Ids
pub mod Reachable
pub mod Ledger
pub mod Balance
pub mod Runs
mod Tests
