-- ===== src/Accounts.antt =====
-- src/accounts/utils/nativeSigner.ts: the signatures of the chain's types of signer. The curves are
-- functions of @noble/curves and so parameters.
pub mod SignerType
pub mod Signatures
pub mod Halves
pub mod RoundTrip
pub mod Elgamal
mod Fixtures
mod Tests
pub mod Signer
