-- ===== src/Login.antt =====
-- emulator/gpcm.client.h and emulator/gpcm.client.cpp: a connection to the login server. The random
-- texts are arguments, the database is a `PlayerDb` and the CRC of Boost a parameter. A handler
-- returns the client, the database and what was sent, in order; what is printed is left out.
pub mod Messages
pub mod Handlers
pub mod Auth
pub mod Verdict
pub mod Invariant
mod Tests
