-- ===== src/Address.antt =====
-- Addresses and their scripts: the base58 and bech32 parts of src/coinbase.c.
pub mod Base58
pub mod Bech32
pub mod Script
mod Tests
pub mod Shapes
