-- ===== src/Admin/Tests.antt =====
-- Requests of the administrator, and the theorem at one of them.
use gamespy_emulator.Admin.Api.{
  Param, get, post, unauthorized, ok, not_found, nothing, log_in, file, undefined, response,
  api_servers, api_of_game, handle_api,
}
use gamespy_emulator.Admin.Client.{Server, Request, Address, dispatch, run}
use gamespy_emulator.Admin.ClientLaws.{IsTrusted, Calls, Unreadable, IsContained, run-IsContained}
use gamespy_emulator.Admin.Files.{Files, mismatch, send_file, look_up, handle_file_lookup}
use gamespy_emulator.Admin.Parse.{parse_int, mime_type, find_mime, extension}
use gamespy_emulator.Game.Data.{Game, ServerData, Statement, common_keys, available, ignore}
use gamespy_emulator.Game.Database.{find_game}
use gamespy_emulator.Prelude.{
  ℕ, ◌≡◌, ◌⊎◌, refl, Bool, true, false, none, some, List, Bytes, [], ◌∷◌, codes, equal,
  if◌then◌else◌,
}
use gamespy_emulator.Utils.Number.{scan_digits}

abbrev gmtest : Game
gmtest = record {
  game_data = record {
    name = codes "gmtest";
    secret_key = codes "HA6zkS";
    query_port = 6500;
    availability = available;
    backend = 128;
    keys = common_keys;
    missing_key_policy = ignore;
  };
  params = [];
  popular_values = [];
  sent = [];
  fired = [];
}

abbrev every : List Statement → Statement → Bool
every before s = true

abbrev no_servers : Game → Bytes → List Bytes → ℕ → ℕ → List ServerData
no_servers game query fields limit skip = []

-- A directory with one file; a name of dots leads out of it.
abbrev files : Files
files = record {
  root = codes "srv" ∷ codes "http" ∷ [];
  resolve = λ name. (
    if◌then◌else◌ (equal name (codes "../key")) (codes "srv" ∷ codes "key" ∷ [])
        (codes "srv" ∷ codes "http" ∷ name ∷ []),
    false,
  );
  exists = λ path. true;
  opens = λ path. true;
  text_of = λ path. codes "/srv/http/index.html";
}

abbrev server : Server
server = record { auth = codes "Basic YTpi"; loopback_only = false }

abbrev remote : Address
remote = record { is_loopback = false; is_local = false }

abbrev param : Bytes → Bytes → Param
param key value = record { key = key; value = value; has_value = true }

abbrev removal : Request
removal = record {
  method = post;
  authorization = some (codes "Basic YTpi");
  target = some (record {
    path = codes "/api/server";
    params =
        param (codes "game") (codes "gmtest")
        ∷ param (codes "ip") (codes "10.0.0.1")
        ∷ param (codes "port") (codes "29900")
        ∷ [];
  });
}

abbrev page : Bytes → Request
page path = record {
  method = get;
  authorization = some (codes "Basic YTpi");
  target = some (record { path = path; params = [] });
}

run-IsContained_example :
    (run every 7 no_servers files server (gmtest ∷ []) remote removal
      ≡ response (gmtest ∷ []) unauthorized log_in)
    ⊎ (IsTrusted server remote removal
        × IsContained
            (Calls (gmtest ∷ []) removal)
            (Unreadable 7 removal)
            files
            (gmtest ∷ [])
            (run every 7 no_servers files server (gmtest ∷ []) remote removal))
run-IsContained_example =
    run-IsContained every 7 no_servers files server (gmtest ∷ []) remote removal

index_served :
    run every 7 no_servers files server [] remote (page (codes "/"))
    ≡ response [] ok
        (file (codes "srv" ∷ codes "http" ∷ codes "index.html" ∷ []) (codes "text/html"))
unfolding run dispatch handle_file_lookup look_up send_file mismatch mime_type find_mime extension
    equal
index_served = refl

traversal_refused :
    run every 7 no_servers files server [] remote (page (codes "/../key"))
    ≡ response [] not_found nothing
unfolding run dispatch handle_file_lookup look_up mismatch equal
traversal_refused = refl

stranger_refused :
    run every 7 no_servers files server [] remote
      (record (page (codes "/")) { authorization = none })
    ≡ response [] unauthorized log_in
unfolding run
stranger_refused = refl

-- A port that is out of range, or empty, is taken for whatever stood in the variable.
port_out_of_range : parse_int 7 (codes "99999999999") ≡ some 7
unfolding parse_int scan_digits
port_out_of_range = refl

port_empty : parse_int 7 [] ≡ some 7
unfolding parse_int
port_empty = refl

-- A limit that is no number is read all the same.
limit_undefined :
    handle_api every 7 no_servers
      (gmtest ∷ [])
      get
      (codes "/api/servers")
      (param (codes "game") (codes "gmtest") ∷ param (codes "limit") (codes "many") ∷ [])
    ≡ undefined
unfolding handle_api api_of_game api_servers parse_int scan_digits find_game equal
limit_undefined = refl
