-- ===== src/Utils.antt =====
-- emulator/utils.h and emulator/utils.cpp: the helpers that the servers share, a module for each.
pub mod Xor
pub mod Encode
pub mod KeyValue
pub mod ReadUntil
pub mod Number
pub mod Numerals
pub mod Date
pub mod Password
pub mod PlainBase64
pub mod Challenge
mod Tests
