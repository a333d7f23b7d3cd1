-- ===== src/Game/ConnectLaws.antt =====
-- `GameDBInMemory::Connect`: the games that are there behind it.
use mathlib.Core.Path.{subst}
use gamespy_emulator.Bf2.Keys.{bf2_data}
use gamespy_emulator.Game.Connect.{
  Entry, entry_data, gmtest_data, emplace_game, connected, add_game, add_entries, with_gmtest,
  connect_games,
}
use gamespy_emulator.Game.Data.{Game, GameData, Statement, make, Run, returned, threw, after_run}
use gamespy_emulator.Game.Database.{find_game}
use gamespy_emulator.Game.Identifiers.{All, IsSafe}
use gamespy_emulator.Game.Safety.{connect-IsSafe, make-IsSafe}
use gamespy_emulator.Game.Servers.{connect}
use gamespy_emulator.Prelude.{
  ◌≡◌, refl, ap, sym, ◌∙◌, Bool, Option, none, some, Bytes, List, [], ◌∷◌, codes, equal, equal_iff,
  inl, inr, Bool-cases, Option-cases, some_injective, arith,
}
use gamespy_emulator.Game.Entered.{
  IsEntered, Enters, connect-game_data, make-game_data, emplace_game-IsEntered, emplace_game-keeps,
  emplace_game-IsSafe,
}

-- The names of the entries are entered.
abbrev pub AreEntered : List Game → List Entry → Type 0
AreEntered games es = All (λ e. IsEntered games e.name) es

module _ (accepts : List Statement → Statement → Bool) where
  connected-Enters :
      (games games' : List Game) (r : Run Game) (name : Bytes)
      → (after_run r).game_data.name ≡ name
      → IsSafe (after_run r)
      → connected accepts games r ≡ some games'
      → Enters name games games'
  connected-Enters games games' (threw g) name n h e = cc
  connected-Enters games games' (returned g) name n h e =
      subst (Enters name games) (some_injective e) (record {
        entered = subst (IsEntered (emplace_game g games)) n (emplace_game-IsEntered g games);
        keeps = emplace_game-keeps g games;
        safe = emplace_game-IsSafe g games h;
      })

  add_game-Enters :
      (d : GameData) (games games' : List Game)
      → add_game accepts d games ≡ some games'
      → Enters d.name games games'
  unfolding add_game
  add_game-Enters d games games' e = elim (Option-cases (make d)) [
    | inl n ↦ ground (arith, rw (n, add_game) at e)
    | inr (g, made) ↦
        connected-Enters games games' (connect accepts g) d.name
          (ap (λ x. x.name) (connect-game_data accepts g ∙ make-game_data d g made))
          (connect-IsSafe accepts g (make-IsSafe d g made)) (rw (made, add_game) at e)
  ]

  entry_data-name : (e : Entry) → (entry_data e).name ≡ e.name
  unfolding entry_data
  entry_data-name e = elim (Bool-cases (equal e.name (codes "battlefield2"))) [
    | inl same ↦ rw same (sym ((equal_iff e.name (codes "battlefield2")).0 same))
    | inr other ↦ rw other refl
  ]

  add_entries-none : (es : List Entry) → add_entries accepts es none ≡ none
  unfolding add_entries
  add_entries-none [] = refl
  add_entries-none (e ∷ es) = add_entries-none es

  add_entries-AreEntered :
      (es : List Entry) (games games' : List Game)
      → add_entries accepts es (some games) ≡ some games'
      → AreEntered games' es
        × ((n : Bytes) → IsEntered games n → IsEntered games' n)
        × (All IsSafe games → All IsSafe games')
  unfolding add_entries
  add_entries-AreEntered [] games games' e =
      subst
        (λ gs.
          Unit
          × ((n : Bytes) → IsEntered games n → IsEntered gs n)
          × (All IsSafe games → All IsSafe gs))
        (some_injective e) (tt, λ n h. h, λ h. h)
  add_entries-AreEntered (entry ∷ es) games games' e =
      elim (Option-cases (add_game accepts (entry_data entry) games)) [
        | inl n ↦ ground (arith, sym (add_entries-none es) ∙ (rw n at e))
        | inr (games'', added) ↦
            let one = add_game-Enters (entry_data entry) games games'' added in
            let (all, keeps, safe) = add_entries-AreEntered es games'' games' (rw added at e) in
            (
              (
                keeps entry.name (subst (IsEntered games'') (entry_data-name entry) one.entered),
                all,
              ),
              λ n h. keeps n (one.keeps n h),
              λ h. safe (one.safe h),
            )
      ]

  AreEntered-map :
      (games games' : List Game) (es : List Entry)
      → ((n : Bytes) → IsEntered games n → IsEntered games' n)
      → AreEntered games es
      → AreEntered games' es
  AreEntered-map games games' [] f h = tt
  AreEntered-map games games' (e ∷ es) f (here, later) =
      (f e.name here, AreEntered-map games games' es f later)

  with_gmtest-IsEntered :
      (o : Option (List Game)) (games' : List Game)
      → with_gmtest accepts o ≡ some games'
      → (games : List Game) × (o ≡ some games) × Enters (codes "gmtest") games games'
  with_gmtest-IsEntered none games' e = cc
  with_gmtest-IsEntered (some games) games' e =
      elim (Option-cases (find_game (codes "gmtest") games)) [
        | inl n ↦ (games, refl, add_game-Enters gmtest_data games games' (rw (n, with_gmtest) at e))
        | inr (there, f) ↦ (
          games,
          refl,
          subst (Enters (codes "gmtest") games) (some_injective (rw (f, with_gmtest) at e))
              (record { entered = (there, f); keeps = λ n h. h; safe = λ h. h }),
        )
      ]

  -- A database of games that connects has a game for the name of each entry of its configuration,
  -- Battlefield 2 if there are no entries, and the game `gmtest`; every column name that its games
  -- sent to their databases is an identifier.
  pub connect_games-AreEntered :
      (es : List Entry) (games : List Game)
      → connect_games accepts es ≡ some games
      → AreEntered games es
        × IsEntered games (codes "gmtest")
        × (es ≡ [] → IsEntered games (codes "battlefield2"))
        × All IsSafe games
  unfolding connect_games
  connect_games-AreEntered [] games e =
      let (before, added, gmtest) = with_gmtest-IsEntered (add_game accepts bf2_data []) games e in
      let bf2 = add_game-Enters bf2_data [] before added in
      (
        tt,
        gmtest.entered,
        λ n. gmtest.keeps (codes "battlefield2") bf2.entered,
        gmtest.safe (bf2.safe tt),
      )
  connect_games-AreEntered (entry ∷ es) games e =
      let (before, added, gmtest) =
        with_gmtest-IsEntered (add_entries accepts (entry ∷ es) (some [])) games e in
      let (all, keeps, safe) = add_entries-AreEntered (entry ∷ es) [] before added in
      (
        AreEntered-map before games (entry ∷ es) gmtest.keeps all,
        gmtest.entered,
        λ n. cc,
        gmtest.safe (safe tt),
      )
