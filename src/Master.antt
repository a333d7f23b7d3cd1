-- ===== src/Master.antt =====
-- emulator/master.h and emulator/master.cpp: the query and reporting server. The clock, the random
-- texts, the base64 encoding of Boost and the answers of SQLite are parameters; what is printed is
-- left out.
pub mod State
pub mod Handlers
pub mod Cleanup
pub mod Listed
pub mod Fresh
pub mod Cleaned
pub mod Validated
pub mod Loop
pub mod Proof
mod Tests
