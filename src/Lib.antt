-- ===== src/Lib.antt =====
-- Verification of the GameSpy emulator: a replacement for the servers that Battlefield 2 and other
-- games find their servers and players by.
--
-- The program and the files here, with the paths of the repository:
-- * `Sapphire` is emulator/sapphire.h and emulator/sapphire.cpp, the stream cipher of the server
--   browser. A cipher object is a record; an array of 256 cards is a list.
-- * `Utils` is emulator/utils.h and emulator/utils.cpp, a module for each group of helpers: `Xor`
--   (gs_xor), `Encode` (encode), `KeyValue` (value_for_key), `Number` (parse_uint32), `Date` (to_date,
--   from_date), `Password` (passencode, passdecode), `Challenge` (generate_challenge). `ReadUntil` is
--   what async_read_until of Boost documents, by which the clients cut off packets.
-- * `Md5` is emulator/md5.h and emulator/md5.cpp.
-- * `Qr` is emulator/qr.h and emulator/qr.cpp, the packets of game servers: `Base` (QRPacket),
--   `MapParser` (QRMap), `TableParser` (QRTable), `Heartbeat` (QRHeartbeatPacket).
-- * `Players` is emulator/playerdb.h, an interface of operations with the law the login server relies
--   on; `Players.Table` is emulator/playerdb.sqlite.cpp as an instance of it.
-- * `Login` is emulator/gpcm.client.cpp, the login of players. It takes a `PlayerDb`.
-- * `Game` is emulator/game.h and emulator/game.cpp: a game, its keys, and the table of its servers
--   (`Select` is the query of GetServers).
--   `Game.Database` and `Game.Connect` are emulator/gamedb.cpp, the games by their names.
-- * `Bf2` is emulator/bf2.cpp, a game of its own: `Keys`, `Queries` (the rewriting in GetServers), and
--   `Servers` (GetServers, also that of Game).
-- * `Browser` is emulator/sb_request.cpp and emulator/ms.client.cpp: the list requests of clients and
--   the replies, encrypted by `Sapphire`, from the servers of a `Game`.
-- * `Master` is emulator/master.cpp: the heartbeats of game servers, parsed by `Qr`, proved by
--   `Utils.Encode`, and entered into a `Game`; `Cleanup` drops those that are not heard of.
-- * `Search` is emulator/gpsp.client.cpp, the search of players, and `Stats` emulator/stats.client.cpp,
--   the reports of game servers: `Challenge` (create_challenge, g_crc32, packet_reader, SendPacket),
--   `Framing` (a stream of its packets), `Client` (Authenticate, Process). Both take a `PlayerDb`.
-- * `CdKey` is emulator/key.cpp.
-- * `Web` is emulator/bf2web.h (`Response`) and emulator/http.client.cpp (`Unlocks`, `Pages`,
--   `Client`), the web pages of Battlefield 2. It takes a `PlayerDb`.
-- * `Admin` is emulator/admin.cpp: `Parse` (parseInt, mimeType), `Api` (HandleAPI), `Files`
--   (HandleFileLookup), `Client` (Run and the constructor of the server). It changes the games.
-- * `Emulator` is emulator/emulator.cpp, the options of the command line, by which the database of
--   games and that of players are chosen and `Admin` and `Stats` are started.
-- * `Redirect` is redirect/main.cpp, which leads the lookups of a game to an emulator: it finds one by
--   a datagram to `Master`.
-- * `Prelude` holds what they share: lists, texts, bits, and permutations of the 256 bytes.
--
-- How the code is read. A span or a string is the list of its bytes, an iterator is the list of the
-- bytes behind it, a map is a list of its entries. A handler is a function from the state to the new
-- state and what is sent; an exception is a result of its own, and the state is then what the code
-- left. What is printed is left out. A value that is read where there
-- is none is a result of its own, too. Numbers are natural; a machine word is reduced at each place
-- where it can wrap around.
--
-- Parameters. A value that the code reads uninitialised, what the file system says of a path, the
-- rows that a query returns, the base64 iterators, the CRC and the address parser of Boost, the
-- clock, the random texts, the functions of Windows, and whether SQLite accepts a statement are
-- arguments.
-- `Utils.Password` states the laws of base64 as a record, and `Utils.PlainBase64` is an instance.
--
-- Fuel. `keyrand` runs twelve rounds, since the code reduces the draw then, and eight rounds fill a
-- mask; `read_frames` runs as many rounds as there are bytes, and a packet has three; so do the loops
-- that cut packets off; a number has fewer digits than its value and one; MD5 has a chunk for each 64
-- bytes.
--
-- Not modelled: the servers that accept connections, the bindings of SQLite and MySQL, start-up, the
-- patches in bf2-dlls and the other DLLs that redirect loads are I/O or calls of the system. HTTP,
-- URLs, JSON and the file system are those of Boost, nlohmann and the standard library.
pub mod Prelude
pub mod Sapphire
pub mod Utils
pub mod Web
pub mod Md5
pub mod Qr
pub mod Players
pub mod Login
pub mod Search
pub mod CdKey
pub mod Stats
pub mod Admin
pub mod Emulator
pub mod Game
pub mod Bf2
pub mod Browser
pub mod Master
pub mod Redirect
