-- ===== src/Emulator.antt =====
-- emulator/emulator.cpp: the options of the command line, and what the servers are started with.
pub mod Options
pub mod Last
pub mod Guard
pub mod Endpoint
mod Tests
