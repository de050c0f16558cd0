-- ===== src/Utils.antt =====
-- contracts/exchange/src/utils.cpp: hexadecimal and decimal text, base58, keys and signatures.
pub mod Hex
pub mod Base58
pub mod Keys
mod Tests
