-- ===== src/Game/Entered.antt =====
-- A game that is made, connected and entered into the database.
use gamespy_emulator.Game.Connect.{emplace_game}
use gamespy_emulator.Game.Data.{
  Game, GameData, GameKey, Statement, Store, make, after_run, Run-cases,
}
use gamespy_emulator.Game.Database.{find_game}
use gamespy_emulator.Game.Identifiers.{All, All-append, IsSafe}
use gamespy_emulator.Game.Names.{is_valid_param_name}
use gamespy_emulator.Game.Servers.{connect, connect_loop, exec, with_params}
use gamespy_emulator.Prelude.{
  ◌≡◌, refl, ◌∙◌, Bool, some, Bytes, List, [], ◌∷◌, ◌++◌, equal, equal_refl, inl, inr, Bool-cases,
  Option-cases, arith,
}

connect_loop-game_data :
    (keys : List GameKey) (columns : List (Bytes × Store)) (game : Game)
    → (after_run (connect_loop keys columns game)).0.game_data ≡ game.game_data
unfolding connect_loop
connect_loop-game_data [] columns game = refl
connect_loop-game_data (key ∷ keys) columns game =
    elim (Bool-cases (is_valid_param_name key.name)) [
      | inl e ↦ rw e (connect_loop-game_data keys _ (with_params (game.params ++ key ∷ []) game))
      | inr e ↦ rw e refl
    ]

exec-game_data :
    (accepts : List Statement → Statement → Bool) (s : Statement) (game : Game)
    → (after_run (exec accepts s game)).game_data ≡ game.game_data
exec-game_data accepts s game = elim (Bool-cases (accepts game.sent s)) [
  | inl e ↦ rw (e, exec, after_run) refl
  | inr e ↦ rw (e, exec, after_run) refl
]

pub connect-game_data :
    (accepts : List Statement → Statement → Bool) (game : Game)
    → (after_run (connect accepts game)).game_data ≡ game.game_data
unfolding connect
connect-game_data accepts game =
    let kept = connect_loop-game_data game.game_data.keys [] game in
    elim (Run-cases (connect_loop game.game_data.keys [] game)) [
      | inr (p, e) ↦ rw (e, connect, after_run) (rw (e, after_run) at kept)
      | inl (p, e) ↦ rw (e, connect) (exec-game_data accepts _ p.0 ∙ (rw (e, after_run) at kept))
    ]

pub make-game_data : (d : GameData) (game : Game) → make d ≡ some game → game.game_data ≡ d
unfolding make
make-game_data d game h = ground arith

-- There is a game of that name.
abbrev pub IsEntered : List Game → Bytes → Type 0
IsEntered games name = (g : Game) × (find_game name games ≡ some g)

IsEntered-append :
    (games more : List Game) (name : Bytes) → IsEntered games name → IsEntered (games ++ more) name
unfolding find_game
IsEntered-append [] more name (g, e) = cc
IsEntered-append (g' ∷ games) more name (g, e) = elim (Bool-cases (equal g'.game_data.name name)) [
  | inl same ↦ (g', rw same refl)
  | inr differs ↦
      let (g'', found) = IsEntered-append games more name (g, rw (differs, find_game) at e) in
      (g'', rw (differs, found) refl)
]

IsEntered-last : (games : List Game) (g : Game) → IsEntered (games ++ g ∷ []) g.game_data.name
unfolding find_game
IsEntered-last [] g = (g, rw (equal_refl g.game_data.name) refl)
IsEntered-last (g' ∷ games) g = elim (Bool-cases (equal g'.game_data.name g.game_data.name)) [
  | inl same ↦ (g', rw same refl)
  | inr differs ↦ let (g'', found) = IsEntered-last games g in (g'', rw (differs, found) refl)
]

pub emplace_game-IsEntered :
    (g : Game) (games : List Game) → IsEntered (emplace_game g games) g.game_data.name
emplace_game-IsEntered g games = elim (Option-cases (find_game g.game_data.name games)) [
  | inl e ↦ rw (e, emplace_game) (IsEntered-last games g)
  | inr (there, e) ↦ rw (e, emplace_game) (there, e)
]

pub emplace_game-keeps :
    (g : Game) (games : List Game) (name : Bytes)
    → IsEntered games name
    → IsEntered (emplace_game g games) name
emplace_game-keeps g games name h = elim (Option-cases (find_game g.game_data.name games)) [
  | inl e ↦ rw (e, emplace_game) (IsEntered-append games (g ∷ []) name h)
  | inr (there, e) ↦ rw (e, emplace_game) h
]

pub emplace_game-IsSafe :
    (g : Game) (games : List Game) → IsSafe g → All IsSafe games → All IsSafe (emplace_game g games)
emplace_game-IsSafe g games hg h = elim (Option-cases (find_game g.game_data.name games)) [
  | inl e ↦ rw (e, emplace_game) (All-append IsSafe games (g ∷ []) h (hg, tt))
  | inr (there, e) ↦ rw (e, emplace_game) h
]

-- What entering a game of that name does: it is there then, the other games stay, and what they
-- sent to their databases is safe.
pub record Enters (name : Bytes) (games games' : List Game) : Type 0 where
  pub entered : IsEntered games' name
  pub keeps : (n : Bytes) → IsEntered games n → IsEntered games' n
  pub safe : All IsSafe games → All IsSafe games'
