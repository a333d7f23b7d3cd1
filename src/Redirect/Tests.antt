-- ===== src/Redirect/Tests.antt =====
-- Runs of the redirector, and the theorems at such runs.
use gamespy_emulator.Game.Data.{Game, Statement, common_keys, available, ignore}
use gamespy_emulator.Game.Database.{find_game}
use gamespy_emulator.Master.Handlers.{receive, send_to}
use gamespy_emulator.Master.State.{Endpoint, Master}
use gamespy_emulator.Prelude.{
  ◌≡◌, ◌⊎◌, ◌↔◌, refl, Bool, true, false, Option, none, some, Bytes, List, [], ◌∷◌, codes, equal,
  length, arith,
}
use gamespy_emulator.Redirect.{
  Host, Detected, from, ended, has_text, should_redirect, redirect_gethostbyname, available_packet,
  read_arguments, detour_gethostbyname,
}
use gamespy_emulator.Redirect.Detect.{receive-available_packet}
use gamespy_emulator.Redirect.Names.{StandsIn, should_redirect_iff}

abbrev local : Bytes
local = 192 ∷ 168 ∷ 0 ∷ 2 ∷ []

abbrev forward : Option Bytes → Option Host
forward name = none

abbrev no_address : Bytes → Option Bytes
no_address name = none

abbrev answering : Bytes → Detected
answering packet = from local

-- The host name of a second lookup of the same thread is the first one's.
second_name :
    redirect_gethostbyname forward local
      (some (codes "master.gamespy.com"))
      (some (codes "gpcm.gamespy.com"))
    ≡ (
      some (record { name = codes "gpcm.gamespy.com"; address = local }),
      some (codes "gpcm.gamespy.com"),
    )
unfolding redirect_gethostbyname should_redirect has_text
second_name = refl

detected :
    detour_gethostbyname true no_address answering false true
      (codes "gmtest")
      (codes "BF2.exe" ∷ codes "+gamename" ∷ codes "battlefield2" ∷ [])
    ≡ ended true local
unfolding detour_gethostbyname read_arguments equal
detected = refl

should_redirect_iff_example : (should_redirect (some (codes "gpcm.gamespy.com")) ≡ true) ↔ (
    StandsIn (codes "gamespy") (codes "gpcm.gamespy.com")
    ⊎ StandsIn (codes "dice.se") (codes "gpcm.gamespy.com"))
should_redirect_iff_example = should_redirect_iff (codes "gpcm.gamespy.com")

abbrev every : List Statement → Statement → Bool
every before s = true

abbrev as_it_is : Bytes → Bytes
as_it_is bytes = bytes

abbrev player : Endpoint
player = record { address = 0x0A000001; port = 50000 }

abbrev master : Master
master = record {
  awaiting_validation = [];
  validated = [];
  games =
      record {
        game_data = record {
          name = codes "gmtest";
          secret_key = codes "HA6zkS";
          query_port = 6500;
          availability = available;
          backend = 128;
          keys = common_keys;
          missing_key_policy = ignore;
        };
        params = [];
        popular_values = [];
        sent = [];
        fired = [];
      }
      ∷ [];
  sent = [];
}

receive-available_packet_example :
    ((find_game (codes "gmtest") master.games ≡ none)
      × (receive every as_it_is 7 [] player (available_packet (codes "gmtest")) [] master ≡ master))
    ⊎ ((g : Game) × (find_game (codes "gmtest") master.games ≡ some g)
        × (reply : Bytes) × (receive every as_it_is 7 [] player
              (available_packet (codes "gmtest"))
              []
              master
            ≡ send_to player reply master)
        × (length reply ≡ 8))
receive-available_packet_example =
    receive-available_packet every as_it_is 7 [] player (codes "gmtest") [] master (omega arith)
