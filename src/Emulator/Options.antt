-- ===== src/Emulator/Options.antt =====
-- `Emulator::InitGameDB`, `InitPlayerDB`, `InitAdminServer`, `InitStatsServer` and `InitHttpServer`
-- of emulator/emulator.cpp: the arguments are read, what is opened is kept as a value.
use gamespy_emulator.Prelude.{
  ℕ, ◌-◌, ◌%◌, ◌^◌, Bool, false, ◌&&◌, ◌||◌, Option, none, some, Bytes, List, [], ◌∷◌, codes,
  if◌then◌else◌, ◌==◌, leb, equal, after_prefix,
}
use gamespy_emulator.Utils.Number.{scan_digits}

-- `std::isspace` in the "C" locale.
abbrev is_space : ℕ → Bool
is_space c = c == b' ' || (leb 9 c && leb c 13)

-- `std::atoi`, then the conversion to 16 bits; a number that an `int` does not hold wraps around.
abbrev pub atoi_signed : Bytes → ℕ
atoi_signed [] = 0
atoi_signed (c ∷ cs) =
    if c == b'-'
    then (2 ^ 16 - (scan_digits 0 cs).0 % 2 ^ 16) % 2 ^ 16
    else if c == b'+'
    then (scan_digits 0 cs).0 % 2 ^ 16
    else (scan_digits 0 (c ∷ cs)).0 % 2 ^ 16

unfoldable pub atoi_16 : Bytes → ℕ
atoi_16 [] = 0
atoi_16 (c ∷ cs) = let rest = atoi_16 cs in if is_space c then rest else atoi_signed (c ∷ cs)

-- The configuration of the games: the text of the standard input or of a file, or none.
pub data GameConfig : Type 0 where
  from_stdin fallback : GameConfig
  from_file : Bytes → GameConfig

abbrev pub game_config : Bytes → GameConfig
game_config filename = if equal filename (codes "stdin") then from_stdin else from_file filename

-- `InitGameDB`
unfoldable pub init_game_db : List Bytes → GameConfig
init_game_db [] = fallback
init_game_db (arg ∷ args) = elim (after_prefix (codes "-gamedb=") arg) [
  | none ↦ init_game_db args
  | some filename ↦ game_config filename
]

-- What `InitPlayerDB` reads: a file ends the loop.
pub record PlayerOptions : Type 0 where
  pub file : Option Bytes
  pub host : Bytes
  pub port : Option ℕ
  pub username : Bytes
  pub password : Bytes
  pub database : Bytes

abbrev pub no_player_options : PlayerOptions
no_player_options = record {
  file = none;
  host = [];
  port = none;
  username = [];
  password = [];
  database = [];
}

-- The first of two tests that matches.
abbrev pub or_else : Option PlayerOptions → Option PlayerOptions → Option PlayerOptions
or_else none o = o
or_else (some p) o = some p

abbrev pub set_option : Bytes → Bytes → (Bytes → PlayerOptions) → Option PlayerOptions
set_option prefix arg change = elim (after_prefix prefix arg) [
  | none ↦ none
  | some value ↦ some (change value)
]

-- The chain of tests of an argument.
unfoldable pub player_option : Bytes → PlayerOptions → PlayerOptions
player_option arg p =
    elim (or_else (set_option (codes "-playerdb-host=") arg (λ v. record p { host = v })) (
      or_else (set_option (codes "-playerdb-port=") arg (λ v. record p { port = some (atoi_16 v) }))
        (or_else (set_option (codes "-playerdb-username=") arg (λ v. record p { username = v })) (
          or_else (set_option (codes "-playerdb-password=") arg (λ v. record p { password = v }))
            (set_option (codes "-playerdb-database=") arg (λ v. record p { database = v })))))) [
              | none ↦ p
              | some q ↦ q
            ]

unfoldable pub player_options : List Bytes → PlayerOptions → PlayerOptions
player_options [] p = p
player_options (arg ∷ args) p = elim (after_prefix (codes "-playerdb=") arg) [
  | some file ↦ record p { file = some file }
  | none ↦ player_options args (player_option arg p)
]

-- The database of the players: a file of SQLite, or a server of MySQL, that of the options or that
-- of Battlefield 2.
pub data PlayerSource : Type 0 where
  sqlite_file : Bytes → PlayerSource
  mysql : PlayerOptions → PlayerSource
  bf2_mysql : PlayerSource

abbrev pub choose_source : Bool → PlayerOptions → Option Bytes → PlayerSource
choose_source bf2_params p (some file) = sqlite_file file
choose_source bf2_params p none =
    if equal p.host []
    then if bf2_params then bf2_mysql else sqlite_file (codes "players.sqlite3")
    else mysql p

-- `InitPlayerDB`; the flag is whether Battlefield 2 is there with parameters of MySQL.
unfoldable pub init_player_db : Bool → List Bytes → PlayerSource
init_player_db bf2_params args =
    let p = player_options args no_player_options in choose_source bf2_params p p.file

pub record AdminOptions : Type 0 where
  pub username : Bytes
  pub password : Bytes
  pub port : ℕ

-- The chain of tests behind those of the user.
abbrev pub admin_port : Bytes → AdminOptions → AdminOptions
admin_port arg o = elim (after_prefix (codes "-admin-port=") arg) [
  | none ↦ o
  | some port ↦ record o { port = atoi_16 port }
]

abbrev pub is_disabled : Bytes → Bool
is_disabled arg = equal arg (codes "-admin-disabled") || equal arg (codes "-admin-disabled=true")

-- The tests of an argument; none where it disables the server.
unfoldable pub admin_option : Bytes → AdminOptions → Option AdminOptions
admin_option arg o = elim (after_prefix (codes "-admin-user=") arg) [
  | some user ↦ some (record o { username = user })
  | none ↦ elim (after_prefix (codes "-admin-password=") arg) [
    | some password ↦ some (record o { password = password })
    | none ↦ if is_disabled arg then none else some (admin_port arg o)
  ]
]

-- The loop of `InitAdminServer`.
unfoldable pub admin_options : List Bytes → AdminOptions → Option AdminOptions
admin_options [] o = some o
admin_options (arg ∷ args) o = elim (admin_option arg o) [
  | none ↦ none
  | some o' ↦ admin_options args o'
]

-- `InitAdminServer`
unfoldable pub init_admin_server : List Bytes → Option AdminOptions
init_admin_server args = admin_options args (record { username = []; password = []; port = 8081 })

pub record StatsOptions : Type 0 where
  pub host : Bytes
  pub port : Option ℕ

-- The tests of an argument.
unfoldable pub stats_option : Bytes → StatsOptions → StatsOptions
stats_option arg o = elim (after_prefix (codes "-stats-host=") arg) [
  | some host ↦ record o { host = host }
  | none ↦ elim (after_prefix (codes "-stats-port=") arg) [
    | some port ↦ record o { port = some (atoi_16 port) }
    | none ↦ o
  ]
]

-- The loop of `InitStatsServer`.
unfoldable pub stats_options : List Bytes → StatsOptions → StatsOptions
stats_options [] o = o
stats_options (arg ∷ args) o = stats_options args (stats_option arg o)

-- Where the snapshots go: `make_address` throws for a text that is no address, and without a host
-- and a port there is no endpoint.
pub data Snapshots (A : Type 0) : Type 0 where
  no_address no_snapshots : Snapshots A
  snapshots_to : A → ℕ → Snapshots A

abbrev pub endpoint_at : {A : Type 0} → Option A → ℕ → Snapshots A
endpoint_at none port = no_address
endpoint_at (some address) port = snapshots_to address port

-- The host and the port with their defaults.
abbrev pub endpoint_of : {A : Type 0} → (Bytes → Option A) → Bytes → Option ℕ → Snapshots A
endpoint_of make_address [] none = no_snapshots
endpoint_of make_address [] (some port) = endpoint_at (make_address (codes "127.0.0.1")) port
endpoint_of make_address (c ∷ host) none = endpoint_at (make_address (c ∷ host)) 80
endpoint_of make_address (c ∷ host) (some port) = endpoint_at (make_address (c ∷ host)) port

-- `InitStatsServer`: the endpoint of the snapshots, by `make_address` of Boost.
unfoldable pub init_stats_server : {A : Type 0} → (Bytes → Option A) → List Bytes → Snapshots A
init_stats_server make_address args =
    let o = stats_options args (record { host = []; port = none }) in
    endpoint_of make_address o.host o.port

-- `InitHttpServer`
unfoldable pub init_http_server : List Bytes → Bool
init_http_server [] = false
init_http_server (arg ∷ args) =
    equal arg (codes "-http-enabled")
    || equal arg (codes "-http-enabled=true")
    || init_http_server args

abbrev pub is_help : Bytes → Bool
is_help arg = equal arg (codes "-h") || equal arg (codes "/?") || equal arg (codes "--help")

unfoldable pub asks_help : List Bytes → Bool
asks_help [] = false
asks_help (arg ∷ args) = is_help arg || asks_help args

-- What `Launch` starts.
pub record Started (A : Type 0) : Type 0 where
  pub games : GameConfig
  pub players : PlayerSource
  pub admin : Option AdminOptions
  pub snapshots : Option (A × ℕ)
  pub http : Bool

pub data Launched (A : Type 0) : Type 0 where
  helped failed : Launched A
  started : Started A → Launched A

abbrev start : {A : Type 0} → Bool → List Bytes → Option (A × ℕ) → Started A
start bf2_params args snapshots = record {
  games = init_game_db args;
  players = init_player_db bf2_params args;
  admin = init_admin_server args;
  snapshots = snapshots;
  http = init_http_server args;
}

-- `Launch`: only the help is printed, an exception ends it, or the servers are started.
unfoldable pub launch : {A : Type 0} → (Bytes → Option A) → Bool → List Bytes → Launched A
launch make_address bf2_params args =
    if asks_help args then helped else elim (init_stats_server make_address args) [
      | no_address ↦ failed
      | no_snapshots ↦ started (start bf2_params args none)
      | snapshots_to address port ↦ started (start bf2_params args (some (address, port)))
    ]
