-- ===== src/Admin.antt =====
-- emulator/admin.h and emulator/admin.cpp: the web interface of the administrator. Boost.Beast and
-- Boost.URL read the request; the JSON texts are kept as what they are made of.
pub mod Parse
pub mod Api
pub mod Files
pub mod Client
pub mod ApiLaws
pub mod ClientLaws
mod Tests
