-- ===== src/Qr/Heartbeat.antt =====
-- `QRHeartbeatPacket::Parse`: the server's values, and where they follow the players and teams.
use gamespy_emulator.Prelude.{Bytes, List, [], codes}
use gamespy_emulator.Qr.Base.{PacketType, QrPacket, Result, ok, err, too_small}
use gamespy_emulator.Qr.MapParser.{Map, parse_map}
use gamespy_emulator.Qr.TableParser.{Row, parse_table}

pub record QrHeartbeatPacket : Type 0 where
  pub type : PacketType
  pub instance_key : Bytes
  pub server_data : Map
  pub player_keys : Row
  pub player_values : List Row
  pub team_keys : Row
  pub team_values : List Row

-- Behind the map: if the players cannot be parsed the heartbeat has none, since the test
-- `end == packet.data.end()` always holds; if only the teams cannot, the heartbeat is refused.
unfoldable pub parse_tables : QrPacket → Map → Bytes → Result QrHeartbeatPacket
parse_tables packet server bytes = elim (parse_table (codes "_") bytes) [
  | err _ ↦ ok (record {
    type = packet.type;
    instance_key = packet.instance_key;
    server_data = server;
    player_keys = [];
    player_values = [];
    team_keys = [];
    team_values = [];
  })
  | ok (players, bytes') ↦ elim (parse_table (codes "_t") bytes') [
    | err _ ↦ err too_small
    | ok (teams, _) ↦ ok (record {
      type = packet.type;
      instance_key = packet.instance_key;
      server_data = server;
      player_keys = players.headers;
      player_values = players.rows;
      team_keys = teams.headers;
      team_values = teams.rows;
    })
  ]
]

unfoldable pub parse_heartbeat : QrPacket → Result QrHeartbeatPacket
unfolding parse_tables
parse_heartbeat packet = elim (parse_map packet.content) [
  | err _ ↦ err too_small
  | ok (server, bytes) ↦ parse_tables packet server bytes
]
