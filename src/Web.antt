-- ===== src/Web.antt =====
-- emulator/http.client.cpp and emulator/bf2web.h: the web pages of Battlefield 2.
pub mod Response
pub mod Unlocks
pub mod Pages
pub mod Counts
pub mod PageLaws
pub mod Errors
pub mod Client
mod Tests
