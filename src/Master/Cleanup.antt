-- ===== src/Master/Cleanup.antt =====
-- `MasterServer::Cleanup`: the entries that have not been heard of for a minute.
use gamespy_emulator.Prelude.{ℕ, ◌-◌, Bool, List, [], ◌∷◌, none, some, ltb, if◌then◌else◌}
use gamespy_emulator.Game.Data.{Statement, Run, returned, threw}
use gamespy_emulator.Game.Servers.{remove_servers}
use gamespy_emulator.Master.State.{Endpoint, Server, Servers, Master, erase_server, address_text}
use gamespy_emulator.Game.Database.{find_game, replace_game}
use gamespy_emulator.Master.Handlers.{with_servers, with_games}

module _ (accepts : List Statement → Statement → Bool) where
  -- The body of the loop of `Cleanup` for one entry; an exception ends it.
  abbrev pub is_stale : ℕ → Server → Bool
  is_stale now s = ltb 60 (now - s.last_update)

  unfoldable pub remove_server : Endpoint → Server → Master → Run Master
  remove_server client s m = elim (find_game s.gamename m.games) [
    | none ↦ threw m
    | some game ↦
        elim (remove_servers accepts ((address_text client.address, client.port) ∷ []) game) [
          | threw game' ↦ threw (with_games (replace_game s.gamename game' m.games) m)
          | returned game' ↦ returned (with_games (replace_game s.gamename game' m.games) m)
        ]
  ]

  abbrev pub erase_from_awaiting : Endpoint → Master → Master
  erase_from_awaiting client m =
      with_servers (erase_server client m.awaiting_validation) m.validated m

  abbrev pub erase_from_validated : Endpoint → Master → Master
  erase_from_validated client m =
      with_servers m.awaiting_validation (erase_server client m.validated) m

  -- The inner loop of `Cleanup` over the entries of one map.
  unfoldable pub clean_entries : (Endpoint → Master → Master) → ℕ → Servers → Master → Run Master
  unfolding remove_server
  clean_entries erase now [] m = returned m
  clean_entries erase now ((client, s) ∷ entries) m =
      if is_stale now s
      then elim (remove_server client s m) [
        | threw m' ↦ threw m'
        | returned m' ↦ clean_entries erase now entries (erase client m')
      ]
      else clean_entries erase now entries m

  -- One minute of `Cleanup`, over both maps.
  unfoldable pub clean_up : ℕ → Master → Run Master
  unfolding clean_entries
  clean_up now m = elim (clean_entries erase_from_awaiting now m.awaiting_validation m) [
    | threw m' ↦ threw m'
    | returned m' ↦ clean_entries erase_from_validated now m'.validated m'
  ]
