-- ===== src/Encoding.antt =====
-- src/utils/encoding/*.ts: hex strings, byte arrays and RLP.
pub mod Hex
pub mod Rlp
