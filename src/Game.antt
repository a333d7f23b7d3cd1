-- ===== src/Game.antt =====
-- emulator/game.h and emulator/game.cpp: a game with its keys, and the table of its servers. The
-- table is in SQLite, which is not modelled: what a method sends it is kept, in order, and whether
-- it accepts a statement is a parameter, a function of the statements before. A key pointer of
-- `m_Params` is the key itself.
pub mod Data
pub mod Database
pub mod Names
pub mod Servers
pub mod Identifiers
pub mod Select
pub mod Safety
pub mod Connect
pub mod Entered
pub mod ConnectLaws
mod Tests
