-- ===== src/Game/Select.antt =====
-- The query of `Game::GetServers`, emulator/game.cpp.
use gamespy_emulator.Game.Data.{
  sqlite_read, sqlite_select, sqlite_function, sqlite_other, Authorizer, select_rows, Game,
}
use gamespy_emulator.Game.Identifiers.{OnlyReads}
use gamespy_emulator.Game.Servers.{send_statement}
use gamespy_emulator.Prelude.{
  ℕ, refl, inl, inr, true, false, ◌&&◌, ◌||◌, Bytes, List, [], ◌∷◌, ◌++◌, codes, if◌then◌else◌,
  ◌==◌, equal, equal_iff, Bool-cases,
}
use gamespy_emulator.Utils.Number.{decimal}

-- The scoped authorizer.
abbrev pub authorize : Authorizer
authorize sqlite_read detail_1 detail_2 db_name =
    equal detail_1 (codes "server")
    && (equal db_name (codes "temp") || equal db_name (codes "main"))
authorize sqlite_select detail_1 detail_2 db_name = true
authorize sqlite_function detail_1 detail_2 db_name = equal detail_2 (codes "like")
authorize sqlite_other detail_1 detail_2 db_name = false

abbrev pub field_list : List Bytes → Bytes
field_list [] = []
field_list (f ∷ fs) = codes "," ++ (f ++ field_list fs)

abbrev pub where_query : Bytes → Bytes
where_query [] = []
where_query (c ∷ cs) = codes " WHERE " ++ (c ∷ cs)

-- The statement.
unfoldable pub servers_sql : Bytes → List Bytes → ℕ → ℕ → Bytes
servers_sql query fields limit skip =
    codes "SELECT __last_update,__public_ip,__public_port"
    ++ field_list fields
    ++ codes " FROM server"
    ++ where_query query
    ++ (codes " LIMIT " ++ decimal limit)
    ++ (if skip == 0 then [] else codes " OFFSET " ++ decimal skip)

-- `GetServers`, what it does to the game: the fields and the query are sent as they are, under the
-- authorizer, which is reset behind it; an exception is caught.
abbrev pub query_servers : Bytes → List Bytes → ℕ → ℕ → Game → Game
query_servers query fields limit skip game =
    send_statement (select_rows authorize (servers_sql query fields limit skip)) game

pub authorize-OnlyReads : OnlyReads authorize
authorize-OnlyReads sqlite_read detail_1 detail_2 db_name =
    elim (Bool-cases (equal detail_1 (codes "server"))) [
      | inr e ↦ inl (rw e refl)
      | inl e ↦ elim (Bool-cases (equal db_name (codes "temp"))) [
        | inl t ↦ inr (
          (equal_iff detail_1 (codes "server")).0 e,
          inl ((equal_iff db_name (codes "temp")).0 t),
        )
        | inr t ↦ elim (Bool-cases (equal db_name (codes "main"))) [
          | inl m ↦ inr (
            (equal_iff detail_1 (codes "server")).0 e,
            inr ((equal_iff db_name (codes "main")).0 m),
          )
          | inr m ↦ inl (rw (e, t, m) refl)
        ]
      ]
    ]
authorize-OnlyReads sqlite_select detail_1 detail_2 db_name = inr tt
authorize-OnlyReads sqlite_function detail_1 detail_2 db_name =
    elim (Bool-cases (equal detail_2 (codes "like"))) [
      | inl e ↦ inr ((equal_iff detail_2 (codes "like")).0 e)
      | inr e ↦ inl e
    ]
authorize-OnlyReads sqlite_other detail_1 detail_2 db_name = inl refl
