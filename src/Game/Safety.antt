-- ===== src/Game/Safety.antt =====
-- Which names reach the database under calls of a game's methods.
use gamespy_emulator.Prelude.{
  ℕ, ◌≡◌, ◌⊎◌, inl, inr, refl, arith, Bool, ◌||◌, Bytes, List, [], ◌∷◌, some, ◌==◌, Bool-cases,
}
use gamespy_emulator.Qr.{is_empty}
use gamespy_emulator.Game.Data.{
  Store, GameData, ServerData, Statement, create_table, add_columns, insert_row, delete_row,
  select_rows, server_removed, Game, Run, returned, threw, after_run, make,
}
use gamespy_emulator.Game.Select.{authorize, servers_sql, query_servers, authorize-OnlyReads}
use gamespy_emulator.Game.Servers.{
  connect_loop, connect, Collected, collected, illegal_column, collect, alter_table, insert_server,
  add_or_update_server, remove_servers, exec, send_statement, fire,
}
use gamespy_emulator.Game.Identifiers.{
  All, All-append, IsIdentifier, IsSafeStatement, IsSafe, IsSafeCollected, collect-IsSafe,
  add_keys-IsSafe, connect_loop-IsSafe,
}

send_statement-IsSafe :
    (s : Statement) (game : Game) → IsSafeStatement s → IsSafe game → IsSafe (send_statement s game)
send_statement-IsSafe s game hs h =
    (h.0, All-append IsSafeStatement game.sent (s ∷ []) h.1 (hs, tt))

-- A statement is sent whether SQLite accepts it or not.
abbrev SafeColumns : Game × List (Bytes × Store) → Type 0
SafeColumns p = IsSafe p.0 × All (λ c. IsIdentifier c.0) p.1

run-cases {ℓ} :
    {A : Type ℓ} (P : A → Type 0) (r : Run A)
    → P (after_run r)
    → ((a : A) × (r ≡ returned a) × P a) ⊎ ((a : A) × (r ≡ threw a) × P a)
run-cases P (returned a) h = inl (a, refl, h)
run-cases P (threw a) h = inr (a, refl, h)

module _ (accepts : List Statement → Statement → Bool) where
  pub connect-IsSafe : (game : Game) → IsSafe game → IsSafe (after_run (connect accepts game))
  unfolding connect
  connect-IsSafe game h =
      elim (run-cases SafeColumns (connect_loop game.game_data.keys [] game)
        (connect_loop-IsSafe game.game_data.keys [] game tt h)) [
          | inl c ↦
              rw (c.1, connect, after_run)
                (elim (Bool-cases (accepts (c.0.0).sent (create_table c.0.1))) [
                  | inl e ↦
                      rw (e, exec, after_run)
                        (send_statement-IsSafe (create_table c.0.1) c.0.0 c.2.1 c.2.0)
                  | inr e ↦
                      rw (e, exec, after_run)
                        (send_statement-IsSafe (create_table c.0.1) c.0.0 c.2.1 c.2.0)
                ])
          | inr c ↦ rw (c.1, connect, after_run) c.2.0
        ]

  alter_table-IsSafe :
      (columns : List Bytes) (game : Game)
      → All IsIdentifier columns
      → IsSafe game
      → IsSafe (after_run (alter_table accepts columns game))
  unfolding alter_table
  alter_table-IsSafe [] game hc h = h
  alter_table-IsSafe (c ∷ cs) game hc h =
      let sent = send_statement-IsSafe (add_columns (c ∷ cs)) game hc h in
      elim (Bool-cases (accepts game.sent (add_columns (c ∷ cs)))) [
        | inl e ↦
            rw (e, alter_table, after_run)
              (add_keys-IsSafe (c ∷ cs) (send_statement (add_columns (c ∷ cs)) game) hc sent)
        | inr e ↦ rw (e, alter_table, after_run) sent
      ]

  insert_server-IsSafe :
      (server : ServerData) (entries : List (Bytes × Bytes)) (run : Run Game)
      → All (λ c. IsIdentifier c.0) entries
      → IsSafe (after_run run)
      → IsSafe (after_run (insert_server accepts server entries run))
  unfolding insert_server
  insert_server-IsSafe server entries (threw game) he h = h
  insert_server-IsSafe server entries (returned game) he h =
      let row = insert_row server.public_ip server.public_port entries in
      let sent = send_statement-IsSafe row game he h in
      elim (Bool-cases (accepts game.sent row)) [
        | inl e ↦ rw (e, insert_server, after_run) sent
        | inr e ↦ rw (e, insert_server, after_run) sent
      ]

  -- What follows the loop.
  after_collect-IsSafe :
      (server : ServerData) (game : Game) (c : Collected)
      → IsSafeCollected c
      → IsSafe game
      → IsSafe (
          after_run (elim c [
            | illegal_column ↦ threw game
            | collected to_add to_insert ↦
                insert_server accepts server to_insert (alter_table accepts to_add game)
          ]))
  after_collect-IsSafe server game illegal_column hc h = h
  after_collect-IsSafe server game (collected to_add to_insert) hc h =
      insert_server-IsSafe server to_insert (alter_table accepts to_add game) hc.1
        (alter_table-IsSafe to_add game hc.0 h)

  pub add_or_update_server-IsSafe :
      (server : ServerData) (game : Game)
      → IsSafe game
      → IsSafe (after_run (add_or_update_server accepts server game))
  unfolding add_or_update_server
  add_or_update_server-IsSafe server game h =
      elim (Bool-cases (is_empty server.public_ip || server.public_port == 0)) [
        | inl e ↦ rw e h
        | inr e ↦ rw e (
            after_collect-IsSafe server game
              (collect game.game_data.missing_key_policy game.params server.values [] [])
              (collect-IsSafe game.game_data.missing_key_policy game.params server.values [] [] h.0
                tt tt)
              h)
      ]

  pub remove_servers-IsSafe :
      (servers : List (Bytes × ℕ)) (game : Game)
      → IsSafe game
      → IsSafe (after_run (remove_servers accepts servers game))
  unfolding remove_servers
  remove_servers-IsSafe [] game h = h
  remove_servers-IsSafe ((ip, port) ∷ servers) game h =
      let sent = send_statement-IsSafe (delete_row ip port) game tt h in
      elim (Bool-cases (accepts game.sent (delete_row ip port))) [
        | inl e ↦
            rw (e, remove_servers, after_run)
              (remove_servers-IsSafe servers
                (fire (server_removed ip port) (send_statement (delete_row ip port) game)) sent)
        | inr e ↦ rw (e, remove_servers, after_run) sent
      ]

pub query_servers-IsSafe :
    (query : Bytes) (fields : List Bytes) (limit skip : ℕ) (game : Game)
    → IsSafe game
    → IsSafe (query_servers query fields limit skip game)
query_servers-IsSafe query fields limit skip game h =
    send_statement-IsSafe (select_rows authorize (servers_sql query fields limit skip)) game
      authorize-OnlyReads h

-- The calls of a game's methods, in order; one that throws changes what it changed until then.
pub data Call : Type 0 where
  call_connect : Call
  call_add_or_update : ServerData → Call
  call_remove : List (Bytes × ℕ) → Call
  call_get_servers : Bytes → List Bytes → ℕ → ℕ → Call

abbrev pub call : (List Statement → Statement → Bool) → Call → Game → Run Game
call accepts call_connect game = connect accepts game
call accepts (call_add_or_update server) game = add_or_update_server accepts server game
call accepts (call_remove servers) game = remove_servers accepts servers game
call accepts (call_get_servers query fields limit skip) game =
    returned (query_servers query fields limit skip game)

unfoldable pub call_all : (List Statement → Statement → Bool) → List Call → Game → Game
call_all accepts [] game = game
call_all accepts (c ∷ cs) game = call_all accepts cs (after_run (call accepts c game))

call-IsSafe :
    (accepts : List Statement → Statement → Bool) (c : Call) (game : Game)
    → IsSafe game
    → IsSafe (after_run (call accepts c game))
call-IsSafe accepts call_connect game h = connect-IsSafe accepts game h
call-IsSafe accepts (call_add_or_update server) game h =
    add_or_update_server-IsSafe accepts server game h
call-IsSafe accepts (call_remove servers) game h = remove_servers-IsSafe accepts servers game h
call-IsSafe accepts (call_get_servers query fields limit skip) game h =
    query_servers-IsSafe query fields limit skip game h

call_all_from-IsSafe :
    (accepts : List Statement → Statement → Bool) (cs : List Call) (game : Game)
    → IsSafe game
    → IsSafe (call_all accepts cs game)
unfolding call_all
call_all_from-IsSafe accepts [] game h = h
call_all_from-IsSafe accepts (c ∷ cs) game h =
    call_all_from-IsSafe accepts cs (after_run (call accepts c game)) (call-IsSafe accepts c game h)

make-empty :
    (d : GameData) (game : Game) → make d ≡ some game → (game.params ≡ []) × (game.sent ≡ [])
unfolding make
make-empty d game h = ground arith

pub make-IsSafe : (d : GameData) (game : Game) → make d ≡ some game → IsSafe game
make-IsSafe d game h = let e = make-empty d game h in rw (e.0, e.1) (tt, tt)

-- A game that the constructor accepts stays safe under any calls of Connect, AddOrUpdateServer,
-- RemoveServers and GetServers, whatever SQLite accepts and whichever of them throw: in what changes
-- the database, every name of a column is a letter or underscore followed by letters, digits and
-- underscores, also the names of keys that a server reported, and so is every key that the game
-- knows; a query, whose fields and condition a client writes, is sent under an authorizer that
-- refuses whatever is no reading of the table of servers.
pub call_all-IsSafe :
    (accepts : List Statement → Statement → Bool) (cs : List Call) (d : GameData) (game : Game)
    → make d ≡ some game
    → IsSafe (call_all accepts cs game)
call_all-IsSafe accepts cs d game h = call_all_from-IsSafe accepts cs game (make-IsSafe d game h)
