-- ===== src/Browser.antt =====
-- emulator/sb_request.h, emulator/sb_request.cpp and emulator/ms.client.cpp: the server browser.
-- A span is the list of its bytes; an iterator is the list of the bytes from it to the end.
pub mod Options
pub mod Request
pub mod ExtractLaws
pub mod RequestLaws
pub mod Reader
pub mod ReaderLaws
pub mod ServerOptions
pub mod Response
pub mod Session
pub mod SessionLaws
pub mod Push
pub mod PushLaws
mod Tests
