-- ===== src/Qr.antt =====
-- emulator/qr.h and emulator/qr.cpp: the packets of the query and reporting protocol. A span is the
-- list of its bytes, an iterator the bytes from it to the end.
mod Base
mod MapParser
mod TableParser
mod Heartbeat
pub mod MapLaws
pub mod TableLaws
pub mod TableShape
pub mod HeartbeatLaws
mod Tests
pub use Base.*
pub use MapParser.*
unfoldable pub use MapParser.{find}
unfoldable pub use Base.{parse}
pub use TableParser.*
pub use Heartbeat.*
