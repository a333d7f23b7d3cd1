-- ===== src/Bf2/Servers.antt =====
-- `Game::GetServers` of emulator/game.cpp, the statement and the rows of its result, and
-- `BF2::GetServers` of emulator/bf2.cpp. What SQLite and MySQL return is a parameter.
use gamespy_emulator.Bf2.Queries.{rewrite_query}
use gamespy_emulator.Game.Data.{ServerData}
use gamespy_emulator.Game.Select.{servers_sql}
use gamespy_emulator.Prelude.{
  ℕ, Bool, true, false, ◌&&◌, Option, none, some, Bytes, List, [], ◌∷◌, codes, if◌then◌else◌, ◌==◌,
  map, equal,
}
use gamespy_emulator.Qr.{Map, emplace}

-- A row of the result.
pub record Row : Type 0 where
  pub last_update : ℕ
  pub public_ip : Bytes
  pub public_port : ℕ
  pub columns : List Bytes

-- The loop over the fields; `emplace` keeps the first value of a field.
unfoldable pub fill : List Bytes → List Bytes → Map → Map
fill (f ∷ fields) (c ∷ columns) values = fill fields columns (emplace f c values)
fill [] columns values = values
fill (f ∷ fields) [] values = values

abbrev pub saved_server : List Bytes → Row → ServerData
saved_server fields row = record {
  last_update = row.last_update;
  public_ip = row.public_ip;
  public_port = row.public_port;
  private_ip = [];
  private_port = 0;
  icmp_ip = [];
  values = fill fields row.columns [];
  rules = [];
}

-- `operator[]` and an assignment.
unfoldable pub put : Bytes → Bytes → Map → Map
put k v [] = (k, v) ∷ []
put k v ((j, w) ∷ m) = if equal j k then (k, v) ∷ m else (j, w) ∷ put k v m

-- A server that is ranked, and whether it is a plasma server; `emplace` keeps the first.
pub record Ranked : Type 0 where
  pub ip : Bytes
  pub port : ℕ
  pub plasma : Bool

unfoldable pub find_ranked : Bytes → ℕ → List Ranked → Option Bool
find_ranked ip port [] = none
find_ranked ip port (r ∷ rs) =
    if equal r.ip ip && r.port == port then some r.plasma else find_ranked ip port rs

abbrev pub flag : Bool → Bytes
flag true = codes "1"
flag false = codes "0"

abbrev pub flag_values : Option Bool → Map → Map
flag_values none values =
    put (codes "bf2_plasma") (codes "0") (put (codes "bf2_ranked") (codes "0") values)
flag_values (some plasma) values =
    put (codes "bf2_plasma") (flag plasma) (put (codes "bf2_ranked") (codes "1") values)

-- The loop that sets the flags.
abbrev pub set_flags : List Ranked → ServerData → ServerData
set_flags ranked s = record s {
  values = flag_values (find_ranked s.public_ip s.public_port ranked) s.values;
}

module _ (rows : Bytes → List Row) where
  -- `Game::GetServers`: the rows that come before an exception, if there is one.
  unfoldable pub game_servers : Bytes → List Bytes → ℕ → ℕ → List ServerData
  game_servers query fields limit skip =
      map (saved_server fields) (rows (servers_sql query fields limit skip))

  -- `BF2::GetServers`: the ranked servers, if MySQL is configured.
  unfoldable pub get_servers : Option (List Ranked) → Bytes → List Bytes → ℕ → ℕ → List ServerData
  get_servers none query fields limit skip = game_servers (rewrite_query query) fields limit skip
  get_servers (some ranked) query fields limit skip =
      map (set_flags ranked) (game_servers (rewrite_query query) fields limit skip)
