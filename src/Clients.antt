-- ===== src/Clients.antt =====
-- src/clients/createPublicClient.ts and createWalletClient.ts: the methods of the clients, over the
-- request of a transport.
pub mod Rpc
pub mod Types
pub mod Serialize
pub mod Filters
pub mod Parse
pub mod Public
pub mod Packages
pub mod Watch
pub mod Receipt
pub mod Wallet
pub mod Contracts
mod Tests
