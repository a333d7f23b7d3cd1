-- ===== src/Emulator/Tests.antt =====
-- Command lines, and the theorems at them.
use gamespy_emulator.Admin.Client.{make}
use gamespy_emulator.Emulator.Endpoint.{port_or, IsEndpoint, init_stats_server-IsEndpoint}
use gamespy_emulator.Emulator.Guard.{IsGuarded, init_admin_server-IsGuarded}
use gamespy_emulator.Emulator.Last.{last_value, value_or}
use gamespy_emulator.Emulator.Options.{
  AdminOptions, from_file, sqlite_file, no_address, started, launch, asks_help, init_game_db,
  init_player_db, player_option, player_options, admin_option, admin_options, init_admin_server,
  stats_option, stats_options, init_stats_server, init_http_server, atoi_16,
}
use gamespy_emulator.Prelude.{
  ◌≡◌, ◌⊎◌, refl, true, false, none, some, List, Bytes, [], ◌∷◌, codes, equal, Option, is_digit,
  if◌then◌else◌,
}
use gamespy_emulator.Utils.Number.{scan_digits}
use gamespy_emulator.Utils.PlainBase64.{plain_base64}

abbrev args : List Bytes
args =
    codes "emulator"
    ∷ codes "-gamedb=games.json"
    ∷ codes "-playerdb-host=db"
    ∷ codes "-playerdb=players.db"
    ∷ codes "-admin-user=ann"
    ∷ codes "-admin-password=secret"
    ∷ codes "-admin-port=70000"
    ∷ codes "-stats-port=8080"
    ∷ []

abbrev admin : AdminOptions
admin = record { username = codes "ann"; password = codes "secret"; port = 4464 }

-- An address starts with a digit here.
abbrev numeric : Bytes → Option Bytes
numeric [] = none
numeric (c ∷ cs) = if is_digit c then some (c ∷ cs) else none

launch_starts :
    launch numeric false args
    ≡ started (record {
      games = from_file (codes "games.json");
      players = sqlite_file (codes "players.db");
      admin = some admin;
      snapshots = some (codes "127.0.0.1", 8080);
      http = false;
    })
unfolding launch asks_help init_game_db init_player_db player_option player_options admin_option
    admin_options init_admin_server stats_option stats_options init_stats_server init_http_server
    atoi_16 scan_digits equal
launch_starts = refl

-- A name is no address.
named_host : init_stats_server numeric (codes "-stats-host=localhost" ∷ []) ≡ no_address
unfolding init_stats_server stats_option stats_options
named_host = refl

init_stats_server-IsEndpoint_example :
    IsEndpoint numeric
      (value_or [] (last_value (codes "-stats-host=") args))
      (port_or none (last_value (codes "-stats-port=") args))
      (init_stats_server numeric args)
init_stats_server-IsEndpoint_example = init_stats_server-IsEndpoint numeric args

init_admin_server-IsGuarded_example :
    ((make plain_base64 admin.username admin.password).loopback_only ≡ true)
    ⊎ IsGuarded plain_base64 args (make plain_base64 admin.username admin.password)
unfolding init_admin_server admin_option admin_options atoi_16 scan_digits equal
init_admin_server-IsGuarded_example = init_admin_server-IsGuarded plain_base64 args admin refl
