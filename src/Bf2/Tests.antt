-- ===== src/Bf2/Tests.antt =====
-- Queries of Battlefield 2, and the theorems at them.
use gamespy_emulator.Bf2.Literal.{read_literal, rewrite_query-literal}
use gamespy_emulator.Bf2.Queries.{
  split_at, double_quotes, join_gametype, escape_hostname, rewrite_query,
}
use gamespy_emulator.Game.Select.{servers_sql}
use gamespy_emulator.Bf2.Servers.{Row, Ranked}
use gamespy_emulator.Prelude.{◌≡◌, refl, true, some, Bytes, List, [], ◌∷◌, ◌++◌, codes}
use gamespy_emulator.Utils.Number.{decimal, decimal_fuel}

abbrev query : Bytes
query = codes "numplayers > 0 and hostname like '%it's%'"

-- The query of the player's game, as the client writes it.
query_rewritten :
    rewrite_query (codes "bf2_ranked = 1gametype like '%gpm_cq%' and hostname like '%it's%'")
    ≡ codes "bf2_ranked = 1 and gametype like '%gpm_cq%' and hostname like '%it''s%'"
unfolding rewrite_query join_gametype escape_hostname split_at double_quotes
query_rewritten = refl

statement :
    servers_sql (codes "numplayers > 0") (codes "hostname" ∷ codes "mapname" ∷ []) 500 0
    ≡ codes
        "SELECT __last_update,__public_ip,__public_port,hostname,mapname FROM server WHERE numplayers > 0 LIMIT 500"
unfolding servers_sql decimal decimal_fuel
statement = refl

rewrite_query-literal_example :
    (behind : Bytes) × (rewrite_query query
      ≡ codes "numplayers > 0 and " ++ (codes "hostname like '" ++ behind))
    × (read_literal behind ≡ some (codes "%" ++ (codes "it's" ++ codes "%"), []))
unfolding split_at join_gametype
rewrite_query-literal_example =
    rewrite_query-literal query (codes "numplayers > 0 and ") (codes "it's") [] refl refl refl

abbrev rows : Bytes → List Row
rows sql =
    record {
      last_update = 7;
      public_ip = codes "10.0.0.1";
      public_port = 29900;
      columns = codes "mine" ∷ [];
    }
    ∷ record {
      last_update = 8;
      public_ip = codes "10.0.0.2";
      public_port = 29900;
      columns = codes "other" ∷ [];
    }
    ∷ []

abbrev ranked : List Ranked
ranked = record { ip = codes "10.0.0.1"; port = 29900; plasma = true } ∷ []
