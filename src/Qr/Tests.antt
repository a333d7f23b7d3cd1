-- ===== src/Qr/Tests.antt =====
-- Runs of the parsers, and the theorems at such inputs.
use gamespy_emulator.Prelude.{
  ◌≡◌, ◌<◌, true, false, refl, arith, Bytes, [], ◌∷◌, ◌++◌, codes, equal,
}
use gamespy_emulator.Qr.Base.{ok, err, parse, too_small}
use gamespy_emulator.Qr.Heartbeat.{parse_heartbeat}
use gamespy_emulator.Qr.HeartbeatLaws.{
  heartbeat_bytes, heartbeat_packet, plain_heartbeat, parse_heartbeat-write_map,
}
use gamespy_emulator.Qr.MapParser.{Map, parse_map, find}
use gamespy_emulator.Qr.MapLaws.{write_map, IsWritable, parse_map-write_map}
use gamespy_emulator.Qr.TableParser.{
  Table, parse_table, table_loop, table_step, table_column, add_cell, check_table, table_count,
}
use gamespy_emulator.Qr.TableShape.{IsRectangle, AllHeaders, write_columns, parse_table-IsRectangle}

abbrev values : Map
values =
    (codes "gamename", codes "battlefield2")
    ∷ (codes "hostname", codes "")
    ∷ (codes "natneg", codes "1")
    ∷ []

values-IsWritable : IsWritable [] values
unfolding find equal
values-IsWritable = ground arith

parse_map-write_map_example : parse_map (write_map values ++ codes "xy") ≡ ok (values, codes "xy")
parse_map-write_map_example = parse_map-write_map values (codes "xy") values-IsWritable

parse_heartbeat-write_map_example :
    (parse (heartbeat_bytes 1 2 3 4 values) ≡ ok (heartbeat_packet 1 2 3 4 values))
    × (parse_heartbeat (heartbeat_packet 1 2 3 4 values) ≡ ok (plain_heartbeat 1 2 3 4 values))
parse_heartbeat-write_map_example = parse_heartbeat-write_map 1 2 3 4 values values-IsWritable

-- Two players with a name and a score.
abbrev cells : Bytes
cells = write_columns (codes "ann" ∷ codes "7" ∷ codes "bob" ∷ codes "3" ∷ []) (codes "rest")

abbrev players : Table
players = record {
  headers_parsed = true;
  headers = codes "player_" ∷ codes "score_" ∷ [];
  rows = (codes "ann" ∷ codes "7" ∷ []) ∷ (codes "bob" ∷ codes "3" ∷ []) ∷ [];
}

abbrev table_bytes : Bytes
table_bytes = 0 ∷ 2 ∷ write_columns (codes "player_" ∷ codes "score_" ∷ []) (0 ∷ cells)

parse_players : parse_table (codes "_") table_bytes ≡ ok (players, codes "rest")
unfolding parse_table table_loop table_step table_column add_cell check_table equal
parse_players = refl

parse_table-IsRectangle_example : IsRectangle 2 (codes "player_" ∷ codes "score_" ∷ []) players
parse_table-IsRectangle_example =
    parse_table-IsRectangle (codes "_") 0 2 (codes "player_") (codes "score_" ∷ []) cells no_suffix
      headers_fit two parse_players
  where
    no_suffix : equal [] (codes "_") ≡ false
    no_suffix = unfold equal in refl

    headers_fit : AllHeaders (codes "_") (codes "player_" ∷ codes "score_" ∷ [])
    headers_fit = unfold equal in ground arith

    two : 0 < table_count 0 2
    two = omega arith

-- An empty cell is skipped, so that the later cells move up: the second row is short by one.
empty_cell_is_lost :
    parse_table (codes "_") (
      0
      ∷ 1
      ∷ write_columns (codes "a_" ∷ codes "b_" ∷ []) (0 ∷ write_columns ([] ∷ codes "x" ∷ []) []))
    ≡ err too_small
unfolding parse_table table_loop table_step table_column add_cell check_table equal
empty_cell_is_lost = refl
