-- ===== src/Game/Database.antt =====
-- emulator/gamedb.cpp: the games of `GameDBInMemory`, found by their names.
use gamespy_emulator.Game.Data.{Game}
use gamespy_emulator.Prelude.{Bytes, List, [], ◌∷◌, Option, none, some, if◌then◌else◌, equal}

-- `HasGame`, and then `GetGame`; `at` throws where there is none.
unfoldable pub find_game : Bytes → List Game → Option Game
find_game name [] = none
find_game name (g ∷ gs) = if equal g.game_data.name name then some g else find_game name gs

-- The game of that name after a method changed it.
unfoldable pub replace_game : Bytes → Game → List Game → List Game
replace_game name g' [] = []
replace_game name g' (g ∷ gs) =
    (if equal g.game_data.name name then g' else g) ∷ replace_game name g' gs
