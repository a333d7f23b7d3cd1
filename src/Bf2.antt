-- ===== src/Bf2.antt =====
-- emulator/bf2.h and emulator/bf2.cpp: the game Battlefield 2, its keys, and the queries of its list
-- of servers.
pub mod Keys
pub mod Queries
pub mod Servers
pub mod Literal
pub mod Listed
pub mod Flags
mod Tests
