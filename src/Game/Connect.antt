-- ===== src/Game/Connect.antt =====
-- `GameDBInMemory::Connect` of emulator/gamedb.cpp. The entries of the configuration are given as
-- what nlohmann reads from them; a missing member makes `at` throw.
use gamespy_emulator.Bf2.Keys.{bf2_data}
use gamespy_emulator.Game.Data.{
  Game, GameData, GameKey, Statement, common_keys, as_string, as_short, as_byte, as_integer,
  as_real, as_text, available, ignore, add_as_string, Send, Store, make, Run, returned, threw,
}
use gamespy_emulator.Game.Database.{find_game}
use gamespy_emulator.Game.Servers.{connect}
use gamespy_emulator.Prelude.{
  Bool, false, ◌||◌, Option, none, some, Bytes, List, [], ◌∷◌, ◌++◌, codes, if◌then◌else◌, equal,
  map,
}

-- An entry: a game by its keys, or the one with the name `battlefield2`.
pub record Entry : Type 0 where
  pub name : Bytes
  pub secret_key : Bytes
  pub keys : List Bytes
  pub send_as_short : List Bytes
  pub send_as_byte : List Bytes
  pub save_as_real : List Bytes
  pub ignored_keys : List Bytes
  pub auto_keys : Bool

abbrev pub listed : Bytes → List Bytes → Bool
listed k [] = false
listed k (j ∷ js) = equal j k || listed k js

abbrev pub send_of : Entry → Bytes → Send
send_of e k =
    if listed k e.send_as_short
    then as_short
    else if listed k e.send_as_byte
    then as_byte
    else as_string

abbrev pub store_of : Entry → Bytes → Send → Store
store_of e k send =
    if listed k e.save_as_real
    then as_real
    else elim send [ as_short ↦ as_integer | as_byte ↦ as_integer | as_string ↦ as_text ]

-- The body of the loop of `parse_keys`.
unfoldable pub parse_key : Entry → Bytes → GameKey
parse_key e k =
    if listed k e.ignored_keys
    then record { name = k; send = as_string; store = as_text; type = [] }
    else record { name = k; send = send_of e k; store = store_of e k (send_of e k); type = [] }

-- `parse_keys`
unfoldable pub parse_keys : Entry → List GameKey
parse_keys e = map (parse_key e) e.keys

-- The data of an entry.
unfoldable pub entry_data : Entry → GameData
entry_data e = if equal e.name (codes "battlefield2") then bf2_data else record {
  name = e.name;
  secret_key = e.secret_key;
  query_port = 6500;
  availability = available;
  backend = 128;
  keys = parse_keys e;
  missing_key_policy = if e.auto_keys then add_as_string else ignore;
}

abbrev pub gmtest_data : GameData
gmtest_data = record {
  name = codes "gmtest";
  secret_key = codes "HA6zkS";
  query_port = 6500;
  availability = available;
  backend = 128;
  keys = common_keys;
  missing_key_policy = ignore;
}

-- `emplace` keeps a game that is there.
abbrev pub emplace_game : Game → List Game → List Game
emplace_game g games = elim (find_game g.game_data.name games) [
  | none ↦ games ++ g ∷ []
  | some there ↦ games
]

module _ (accepts : List Statement → Statement → Bool) where
  -- A game is made, connected, and entered; `none` where one of these throws.
  abbrev pub connected : List Game → Run Game → Option (List Game)
  connected games (returned g) = some (emplace_game g games)
  connected games (threw g) = none

  unfoldable pub add_game : GameData → List Game → Option (List Game)
  add_game d games = elim (make d) [ none ↦ none | some g ↦ connected games (connect accepts g) ]

  abbrev pub add_to : GameData → Option (List Game) → Option (List Game)
  add_to d none = none
  add_to d (some games) = add_game d games

  -- The loop over the entries.
  unfoldable pub add_entries : List Entry → Option (List Game) → Option (List Game)
  add_entries [] games = games
  add_entries (e ∷ es) games = add_entries es (add_to (entry_data e) games)

  abbrev pub with_gmtest : Option (List Game) → Option (List Game)
  with_gmtest none = none
  with_gmtest (some games) = elim (find_game (codes "gmtest") games) [
    | none ↦ add_game gmtest_data games
    | some there ↦ some games
  ]

  -- `Connect`: without entries, the game Battlefield 2.
  unfoldable pub connect_games : List Entry → Option (List Game)
  connect_games [] = with_gmtest (add_game bf2_data [])
  connect_games (e ∷ es) = with_gmtest (add_entries (e ∷ es) (some []))
