-- ===== src/Master/Cleaned/Tests.antt =====
-- A round of the cleanup with two stale entries, and the theorems at it.
use gamespy_emulator.Game.Data.{
  Game, Statement, returned, after_run, common_keys, available, ignore,
}
use gamespy_emulator.Game.Database.{find_game, replace_game}
use gamespy_emulator.Game.Servers.{exec, remove_servers}
use gamespy_emulator.Master.Cleaned.{IsCleaned, clean_up-IsCleaned, clean_up-find_server}
use gamespy_emulator.Master.Cleanup.{remove_server, clean_entries, clean_up}
use gamespy_emulator.Master.State.{Endpoint, Server, Master, find_server, erase_server}
use gamespy_emulator.Utils.Number.{decimal}
use gamespy_emulator.Prelude.{ℕ, ◌≡◌, refl, inl, inr, Bool, true, List, [], ◌∷◌, codes, equal}

abbrev every : List Statement → Statement → Bool
every before s = true

abbrev gmtest : Game
gmtest = record {
  game_data = record {
    name = codes "gmtest";
    secret_key = codes "HA6zkS";
    query_port = 6500;
    availability = available;
    backend = 128;
    keys = common_keys;
    missing_key_policy = ignore;
  };
  params = [];
  popular_values = [];
  sent = [];
  fired = [];
}

abbrev server_of : ℕ → Server
server_of heard = record {
  last_update = heard;
  proof = codes "abcd";
  instance_key = 1 ∷ 2 ∷ 3 ∷ 4 ∷ [];
  gamename = codes "gmtest";
  values = [];
}

abbrev gone : Endpoint
gone = record { address = 0x0A000001; port = 29900 }

abbrev here : Endpoint
here = record { address = 0x0A000002; port = 29900 }

abbrev master : Master
master = record {
  awaiting_validation = (gone, server_of 5) ∷ [];
  validated = (here, server_of 40) ∷ (gone, server_of 39) ∷ [];
  games = gmtest ∷ [];
  sent = [];
}

-- Exactly a minute ago is not stale.
abbrev cleaned : Master
cleaned = record {
  awaiting_validation = [];
  validated = (here, server_of 40) ∷ [];
  games =
      (after_run
        (remove_servers every ((codes "10.0.0.1", 29900) ∷ (codes "10.0.0.1", 29900) ∷ []) gmtest))
      ∷ [];
  sent = [];
}

clean_up_runs : clean_up every 100 master ≡ returned cleaned
unfolding clean_up clean_entries remove_server find_game replace_game remove_servers exec
    erase_server equal decimal
clean_up_runs = refl

clean_up-IsCleaned_example :
    IsCleaned every 100 master.awaiting_validation []
    × IsCleaned every 100 master.validated ((here, server_of 40) ∷ [])
clean_up-IsCleaned_example = clean_up-IsCleaned every 100 master cleaned clean_up_runs

clean_up-find_server_example :
    (find_server here [] ≡ find_server here master.awaiting_validation)
    × (find_server here cleaned.validated ≡ find_server here master.validated)
clean_up-find_server_example =
    clean_up-find_server every 100 here master cleaned clean_up_runs (inl refl, tt)
      (inr refl, (inl refl, tt))
