-- ===== src/Admin/Api.antt =====
-- `AdminClient::HandleAPI` of emulator/admin.cpp. What a query of the table of servers returns is a
-- parameter.
use gamespy_emulator.Admin.Parse.{parse_int}
use gamespy_emulator.Game.Data.{Game, GameKey, ServerData, Statement, Run, returned, threw}
use gamespy_emulator.Game.Database.{find_game, replace_game}
use gamespy_emulator.Game.Select.{query_servers}
use gamespy_emulator.Game.Servers.{add_or_update_server, remove_servers}
use gamespy_emulator.Prelude.{
  ℕ, ◌%◌, ◌^◌, Bool, true, false, not, ◌||◌, Option, none, some, Bytes, List, [], ◌∷◌, ◌++◌, codes,
  if◌then◌else◌, ◌==◌, map, equal,
}
use gamespy_emulator.Qr.{Map, emplace}

pub data Method : Type 0 where
  get post delete other : Method

-- A parameter of the target.
pub record Param : Type 0 where
  pub key : Bytes
  pub value : Bytes
  pub has_value : Bool

pub data Status : Type 0 where
  ok bad_request unauthorized not_found internal_server_error : Status

-- The body of a response: what its JSON or its file holds.
pub data Body : Type 0 where
  nothing log_in : Body
  error success : Bytes → Body
  game_list : List (Bytes × List GameKey) → Body
  server_list : List ServerData → Body
  file : List Bytes → Bytes → Body

-- A request is answered, after which the games are those given; or an exception ends it; or it
-- reads a value that is not there.
pub data Outcome : Type 0 where
  undefined : Outcome
  exception : List Game → Outcome
  response : List Game → Status → Body → Outcome

-- `params.find`
abbrev pub find_param : Bytes → List Param → Option Param
find_param name [] = none
find_param name (p ∷ ps) = if equal p.key name then some p else find_param name ps

-- `params.contains`
abbrev pub contains : Bytes → List Param → Bool
contains name params = elim (find_param name params) [ none ↦ false | some p ↦ true ]

abbrev pub value_or : Bytes → Option Param → Bytes
value_or d none = d
value_or d (some p) = p.value

-- A number among the parameters, and `none` where `parseInt` gives none that is read.
abbrev pub number_or : ℕ → ℕ → Option Param → Option ℕ
number_or junk d none = some d
number_or junk d (some p) = parse_int junk p.value

-- `std::views::split` at commas, `word` being the part before.
abbrev pub split_from : Bytes → Bytes → List Bytes
split_from word [] = word ∷ []
split_from word (c ∷ cs) =
    if c == b',' then word ∷ split_from [] cs else split_from (word ++ c ∷ []) cs

abbrev pub split : Bytes → List Bytes
split [] = []
split (c ∷ cs) = split_from [] (c ∷ cs)

abbrev pub fields_of : Option Param → List Bytes
fields_of none = []
fields_of (some p) = if p.has_value then split p.value else []

-- The parameters that are values of the server.
abbrev pub is_reserved : Param → Bool
is_reserved p =
    equal p.key []
    || equal p.key (codes "game")
    || equal p.key (codes "ip")
    || equal p.key (codes "port")
    || not p.has_value

unfoldable pub server_values : List Param → Map → Map
server_values [] values = values
server_values (p ∷ ps) values =
    server_values ps (if is_reserved p then values else emplace p.key p.value values)

abbrev pub incoming_server : Bytes → ℕ → List Param → ServerData
incoming_server ip port params = record {
  last_update = 0;
  public_ip = ip;
  public_port = port % 2 ^ 16;
  private_ip = [];
  private_port = 0;
  icmp_ip = [];
  values = server_values params [];
  rules = [];
}

abbrev pub bad : List Game → Bytes → Outcome
bad games what = response games bad_request (error what)

-- The answer behind a method of a game.
abbrev pub after_method : Bytes → List Game → Bytes → Run Game → Outcome
after_method name games what (returned game) =
    response (replace_game name game games) ok (success what)
after_method name games what (threw game) = exception (replace_game name game games)

-- `/api/games`
unfoldable pub api_games : List Game → Method → Outcome
api_games games get =
    response games ok (game_list (map (λ g. (g.game_data.name, g.game_data.keys)) games))
api_games games _ = bad games (codes "invalid http method")

module _ (accepts : List Statement → Statement → Bool) (junk : ℕ)
    (get_servers : Game → Bytes → List Bytes → ℕ → ℕ → List ServerData) where
  abbrev pub list_servers :
      List Game → Bytes → Game → Bytes → List Bytes → Option ℕ → Option ℕ → Outcome
  list_servers games name game query fields (some limit) (some skip) =
      response (replace_game name (query_servers query fields limit skip game) games) ok
        (server_list (get_servers game query fields limit skip))
  list_servers games name game query fields _ _ = undefined

  -- `/api/servers`
  unfoldable pub api_servers : List Game → Bytes → Game → Method → List Param → Outcome
  api_servers games name game get params =
      list_servers games name game (value_or [] (find_param (codes "query") params))
        (fields_of (find_param (codes "fields") params))
        (number_or junk 100 (find_param (codes "limit") params))
        (number_or junk 0 (find_param (codes "skip") params))
  api_servers games name game _ params = bad games (codes "invalid http method")

  unfoldable pub change_server :
      List Game → Bytes → Game → Method → List Param → Bytes → ℕ → Outcome
  change_server games name game post params ip port =
      after_method name games (codes "added server")
        (add_or_update_server accepts (incoming_server ip port params) game)
  change_server games name game delete params ip port =
      after_method name games (codes "removed server")
        (remove_servers accepts ((ip, port % 2 ^ 16) ∷ []) game)
  change_server games name game _ params ip port = bad games (codes "invalid http method")

  -- `/api/server`
  unfoldable pub api_server :
      List Game → Bytes → Game → Method → List Param → Option Param → Option Param → Outcome
  api_server games name game method params (some ip) (some port) =
      elim (parse_int junk port.value) [
        | none ↦ bad games (codes "invalid port parameter")
        | some number ↦ change_server games name game method params ip.value number
      ]
  api_server games name game method params _ _ = bad games (codes "missing ip or port parameter")

  -- The calls that need a game; `at` throws where there is no game of that name.
  unfoldable pub api_of_game : List Game → Method → Bytes → List Param → Bytes → Outcome
  api_of_game games method path params name = elim (find_game name games) [
    | none ↦ exception games
    | some game ↦
        if equal path (codes "/api/servers")
        then api_servers games name game method params
        else if equal path (codes "/api/server")
        then api_server games name game method params (find_param (codes "ip") params)
            (find_param (codes "port") params)
        else response games not_found nothing
  ]

  -- `HandleAPI`
  unfoldable pub handle_api : List Game → Method → Bytes → List Param → Outcome
  handle_api games method path params =
      if equal path (codes "/api/games")
      then api_games games method
      else elim (find_param (codes "game") params) [
        | none ↦ bad games (codes "missing game parameter")
        | some game ↦ api_of_game games method path params game.value
      ]
