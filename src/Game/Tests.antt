-- ===== src/Game/Tests.antt =====
-- Runs of a game, and the theorem at such a run.
use gamespy_emulator.Prelude.{
  ◌≡◌, refl, Bool, true, Bytes, Option, none, map, List, [], ◌∷◌, some, codes, equal,
}
use gamespy_emulator.Utils.Number.{decimal, decimal_fuel}
use gamespy_emulator.Game.Data.{
  GameData, available, add_as_string, text_key, make, Game, ServerData, Statement, hash_name,
  get_master_server, as_text, create_table, add_columns, insert_row,
}
use gamespy_emulator.Game.Connect.{
  Entry, parse_key, parse_keys, entry_data, add_game, add_entries, connect_games,
}
use gamespy_emulator.Game.ConnectLaws.{AreEntered, connect_games-AreEntered}
use gamespy_emulator.Game.Database.{find_game}
use gamespy_emulator.Game.Entered.{IsEntered}
use gamespy_emulator.Game.Names.{is_valid_param_name, all_name_chars}
use gamespy_emulator.Game.Servers.{
  connect, connect_loop, add_or_update_server, collect, add_keys, alter_table, insert_server,
}
use gamespy_emulator.Game.Identifiers.{All, IsSafe}
use gamespy_emulator.Game.Safety.{
  Call, call_connect, call_add_or_update, call_get_servers, call_all, call_all-IsSafe,
}

abbrev data_of : GameData
data_of = record {
  name = codes "battlefield2";
  secret_key = codes "hW6m9a";
  query_port = 6500;
  availability = available;
  backend = 128;
  keys = text_key (codes "hostname") ∷ [];
  missing_key_policy = add_as_string;
}

abbrev game : Game
game = record { game_data = data_of; params = []; popular_values = []; sent = []; fired = [] }

-- A server that reports a key that the game does not know.
abbrev reporting : ServerData
reporting = record {
  last_update = 7;
  public_ip = codes "10.0.0.1";
  public_port = 29900;
  private_ip = [];
  private_port = 0;
  icmp_ip = [];
  values = (codes "hostname", codes "mine") ∷ (codes "bf2_dlc", codes "1") ∷ [];
  rules = [];
}

abbrev every : List Statement → Statement → Bool
every before s = true

abbrev calls : List Call
calls = call_connect ∷ call_add_or_update reporting ∷ call_add_or_update reporting ∷ []

make_game : make data_of ≡ some game
unfolding make equal
make_game = refl

-- A query is sent as a client writes it.
abbrev calls_and_query : List Call
calls_and_query =
    call_connect
    ∷ call_add_or_update reporting
    ∷ call_get_servers (codes "1; DROP TABLE server") (codes "hostname--" ∷ []) 500 0
    ∷ []

call_all-IsSafe_example : IsSafe (call_all every calls_and_query game)
call_all-IsSafe_example = call_all-IsSafe every calls_and_query data_of game make_game

-- The first row of a server with a new key lacks the value of that key, the second has it.
first_row_lacks_value :
    (call_all every calls game).sent
    ≡ create_table ((codes "hostname", as_text) ∷ [])
      ∷ add_columns (codes "bf2_dlc" ∷ [])
      ∷ insert_row (codes "10.0.0.1") 29900 ((codes "hostname", codes "mine") ∷ [])
      ∷ insert_row
          (codes "10.0.0.1")
          29900
          ((codes "hostname", codes "mine") ∷ (codes "bf2_dlc", codes "1") ∷ [])
      ∷ []
unfolding call_all connect connect_loop add_or_update_server collect alter_table insert_server
    add_keys is_valid_param_name all_name_chars equal
first_row_lacks_value = refl

master_server : get_master_server game ≡ codes "battlefield2.ms14.gamespy.com"
unfolding get_master_server hash_name decimal decimal_fuel
master_server = refl

-- A database of two games, and the default one.
abbrev entry : Entry
entry = record {
  name = codes "mohaa";
  secret_key = codes "M5Fdwc";
  keys = codes "hostname" ∷ codes "ping" ∷ codes "fps" ∷ [];
  send_as_short = codes "ping" ∷ [];
  send_as_byte = [];
  save_as_real = codes "fps" ∷ [];
  ignored_keys = [];
  auto_keys = true;
}

abbrev names_of : Option (List Game) → List Bytes
names_of none = []
names_of (some games) = map (λ g. g.game_data.name) games

games_connected : names_of (connect_games every (entry ∷ [])) ≡ codes "mohaa" ∷ codes "gmtest" ∷ []
unfolding connect_games add_game add_entries entry_data parse_keys parse_key make connect
    connect_loop find_game is_valid_param_name all_name_chars equal
games_connected = refl

default_connected : names_of (connect_games every []) ≡ codes "battlefield2" ∷ codes "gmtest" ∷ []
unfolding connect_games add_game add_entries entry_data parse_keys parse_key make connect
    connect_loop find_game is_valid_param_name all_name_chars equal
default_connected = refl

abbrev or_none : Option (List Game) → List Game
or_none none = []
or_none (some games) = games

connects : connect_games every (entry ∷ []) ≡ some (or_none (connect_games every (entry ∷ [])))
unfolding connect_games add_game add_entries entry_data parse_keys parse_key make connect
    connect_loop find_game is_valid_param_name all_name_chars equal
connects = refl

connect_games-AreEntered_example :
    AreEntered (or_none (connect_games every (entry ∷ []))) (entry ∷ [])
    × IsEntered (or_none (connect_games every (entry ∷ []))) (codes "gmtest")
    × (entry ∷ [] ≡ []
        → IsEntered (or_none (connect_games every (entry ∷ []))) (codes "battlefield2"))
    × All IsSafe (or_none (connect_games every (entry ∷ [])))
connect_games-AreEntered_example =
    connect_games-AreEntered every (entry ∷ []) (or_none (connect_games every (entry ∷ [])))
      connects
