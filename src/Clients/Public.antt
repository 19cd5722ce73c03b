-- ===== src/Clients/Public.antt =====
-- The methods of the public client that send one request (createPublicClient.ts).
pub mod Accounts
pub mod Blocks
pub mod Calls
pub mod Privacy
pub mod Registries
pub mod Node
pub mod PackageCalls
