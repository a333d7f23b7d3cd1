-- ===== src/Bf2/Keys.antt =====
-- `bf2Data` of emulator/bf2.cpp.
use gamespy_emulator.Game.Data.{
  GameData, GameKey, as_string, as_byte, as_short, as_integer, as_real, as_text, available, ignore,
}
use gamespy_emulator.Prelude.{List, [], ◌∷◌, codes}
use Prim.Native.String.{String}

-- The functions of the namespace `key`.
abbrev text : String → GameKey
text name = record { name = codes name; send = as_string; store = as_text; type = codes "string" }

abbrev real : String → GameKey
real name = record { name = codes name; send = as_string; store = as_real; type = codes "float" }

abbrev shrt : String → GameKey
shrt name = record {
  name = codes name;
  send = as_short;
  store = as_integer;
  type = codes "integer";
}

abbrev boolean : String → GameKey
boolean name = record {
  name = codes name;
  send = as_byte;
  store = as_integer;
  type = codes "boolean";
}

abbrev ipaddr : String → GameKey
ipaddr name = record { name = codes name; send = as_string; store = as_text; type = codes "ip" }

abbrev pub bf2_keys : List GameKey
bf2_keys =
    text "hostname"
    ∷ text "country"
    ∷ text "gamename"
    ∷ text "gamever"
    ∷ text "mapname"
    ∷ text "gametype"
    ∷ text "gamevariant"
    ∷ shrt "numplayers"
    ∷ shrt "maxplayers"
    ∷ text "gamemode"
    ∷ boolean "password"
    ∷ shrt "timelimit"
    ∷ shrt "roundtime"
    ∷ shrt "hostport"
    ∷ ipaddr "localip0"
    ∷ ipaddr "localip1"
    ∷ ipaddr "localip2"
    ∷ ipaddr "localip3"
    ∷ ipaddr "localip4"
    ∷ shrt "localport"
    ∷ boolean "natneg"
    ∷ boolean "statechanged"
    ∷ boolean "bf2_dedicated"
    ∷ boolean "bf2_ranked"
    ∷ boolean "bf2_anticheat"
    ∷ text "bf2_os"
    ∷ boolean "bf2_autorec"
    ∷ text "bf2_d_idx"
    ∷ text "bf2_d_dl"
    ∷ boolean "bf2_voip"
    ∷ boolean "bf2_autobalanced"
    ∷ boolean "bf2_friendlyfire"
    ∷ text "bf2_tkmode"
    ∷ real "bf2_startdelay"
    ∷ real "bf2_spawntime"
    ∷ text "bf2_sponsortext"
    ∷ text "bf2_sponsorlogo_url"
    ∷ text "bf2_communitylogo_url"
    ∷ shrt "bf2_scorelimit"
    ∷ real "bf2_ticketratio"
    ∷ real "bf2_teamratio"
    ∷ text "bf2_team1"
    ∷ text "bf2_team2"
    ∷ boolean "bf2_bots"
    ∷ boolean "bf2_pure"
    ∷ shrt "bf2_mapsize"
    ∷ boolean "bf2_globalunlocks"
    ∷ real "bf2_fps"
    ∷ boolean "bf2_plasma"
    ∷ shrt "bf2_reservedslots"
    ∷ real "bf2_coopbotratio"
    ∷ shrt "bf2_coopbotcount"
    ∷ real "bf2_coopbotdiff"
    ∷ boolean "bf2_novehicles"
    ∷ []

-- `bf2Data`; the other fields keep their initialisers.
abbrev pub bf2_data : GameData
bf2_data = record {
  name = codes "battlefield2";
  secret_key = codes "hW6m9a";
  query_port = 6500;
  availability = available;
  backend = 128;
  keys = bf2_keys;
  missing_key_policy = ignore;
}
