-- ===== src/Stats.antt =====
-- emulator/stats.client.h and emulator/stats.client.cpp: the client that reports statistics. The
-- packets are given as they arrive, each up to its `\final\`; a snapshot that is passed on is kept.
pub mod Challenge
pub mod Framing
pub mod Client
pub mod Auth
pub mod Uploads
pub mod Players
mod Tests
