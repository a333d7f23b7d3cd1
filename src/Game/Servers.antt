-- ===== src/Game/Servers.antt =====
-- The methods of `Game` that change the server table.
use gamespy_emulator.Prelude.{ℕ, Bool, ◌||◌, Bytes, List, [], ◌∷◌, ◌++◌, ◌==◌, if◌then◌else◌}
use gamespy_emulator.Qr.{Map}
use gamespy_emulator.Qr.{is_empty}
use gamespy_emulator.Game.Data.{
  Store, GameKey, MissingKeyPolicy, ignore, add_as_string, ServerData, Statement, create_table,
  add_columns, insert_row, delete_row, Signal, server_added, server_removed, Game, Run, returned,
  threw, text_key, has_key,
}
use gamespy_emulator.Game.Names.{is_valid_param_name}

abbrev pub with_params : List GameKey → Game → Game
with_params params game = record {
  game_data = game.game_data;
  params = params;
  popular_values = game.popular_values;
  sent = game.sent;
  fired = game.fired;
}

abbrev pub send_statement : Statement → Game → Game
send_statement s game = record {
  game_data = game.game_data;
  params = game.params;
  popular_values = game.popular_values;
  sent = game.sent ++ s ∷ [];
  fired = game.fired;
}

abbrev pub fire : Signal → Game → Game
fire signal game = record {
  game_data = game.game_data;
  params = game.params;
  popular_values = game.popular_values;
  sent = game.sent;
  fired = game.fired ++ signal ∷ [];
}

-- The new keys, in `m_Data.keys` and in `m_Params`.
abbrev pub add_key : Bytes → Game → Game
add_key column game = record {
  game_data = record {
    name = game.game_data.name;
    secret_key = game.game_data.secret_key;
    query_port = game.game_data.query_port;
    availability = game.game_data.availability;
    backend = game.game_data.backend;
    keys = game.game_data.keys ++ text_key column ∷ [];
    missing_key_policy = game.game_data.missing_key_policy;
  };
  params = game.params ++ text_key column ∷ [];
  popular_values = game.popular_values;
  sent = game.sent;
  fired = game.fired;
}

unfoldable pub add_keys : List Bytes → Game → Game
add_keys [] game = game
add_keys (column ∷ columns) game = add_keys columns (add_key column game)

-- The loop of `Connect` over the keys: their columns, or the game as it was when one threw.
unfoldable pub connect_loop :
    List GameKey → List (Bytes × Store) → Game → Run (Game × List (Bytes × Store))
connect_loop [] columns game = returned (game, columns)
connect_loop (key ∷ keys) columns game =
    if is_valid_param_name key.name
    then connect_loop keys (columns ++ (key.name, key.store) ∷ [])
        (with_params (game.params ++ key ∷ []) game)
    else threw (game, columns)

-- What the loop of `AddOrUpdateServer` collects.
pub data Collected : Type 0 where
  collected : List Bytes → List (Bytes × Bytes) → Collected
  illegal_column : Collected

-- The loop over the data of the server: the columns to add, and the values to insert.
unfoldable pub collect :
    MissingKeyPolicy → List GameKey → Map → List Bytes → List (Bytes × Bytes) → Collected
collect policy params [] to_add to_insert = collected to_add to_insert
collect policy params ((key, value) ∷ entries) to_add to_insert =
    if has_key key params
    then collect policy params entries to_add (to_insert ++ (key, value) ∷ [])
    else elim policy [
      | add_as_string ↦
          if is_valid_param_name key
          then collect policy params entries (to_add ++ key ∷ []) to_insert
          else illegal_column
      | ignore ↦ collect policy params entries to_add to_insert
    ]

module _ (accepts : List Statement → Statement → Bool) where
  -- `m_DB.exec`, which throws when SQLite refuses the statement.
  abbrev pub exec : Statement → Game → Run Game
  exec s game =
      if accepts game.sent s
      then returned (send_statement s game)
      else threw (send_statement s game)

  -- `Connect`
  unfoldable pub connect : Game → Run Game
  unfolding connect_loop
  connect game = elim (connect_loop game.game_data.keys [] game) [
    | threw p ↦ threw p.0
    | returned p ↦ exec (create_table p.1) p.0
  ]

  -- The new columns, if there are any.
  unfoldable pub alter_table : List Bytes → Game → Run Game
  unfolding add_keys
  alter_table [] game = returned game
  alter_table (c ∷ cs) game = elim (exec (add_columns (c ∷ cs)) game) [
    | threw game' ↦ threw game'
    | returned game' ↦ returned (add_keys (c ∷ cs) game')
  ]

  -- The row, and the signal.
  unfoldable pub insert_server : ServerData → List (Bytes × Bytes) → Run Game → Run Game
  insert_server server values (threw game) = threw game
  insert_server server values (returned game) =
      elim (exec (insert_row server.public_ip server.public_port values) game) [
        | threw game' ↦ threw game'
        | returned game' ↦ returned (fire (server_added server) game')
      ]

  -- `AddOrUpdateServer`
  unfoldable pub add_or_update_server : ServerData → Game → Run Game
  unfolding collect alter_table insert_server
  add_or_update_server server game =
      if is_empty server.public_ip || server.public_port == 0
      then threw game
      else elim (collect game.game_data.missing_key_policy game.params server.values [] []) [
        | illegal_column ↦ threw game
        | collected to_add to_insert ↦ insert_server server to_insert (alter_table to_add game)
      ]

  -- `RemoveServers`
  unfoldable pub remove_servers : List (Bytes × ℕ) → Game → Run Game
  remove_servers [] game = returned game
  remove_servers ((ip, port) ∷ servers) game = elim (exec (delete_row ip port) game) [
    | threw game' ↦ threw game'
    | returned game' ↦ remove_servers servers (fire (server_removed ip port) game')
  ]
