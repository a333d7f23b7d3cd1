-- ===== src/Bf2/Queries.antt =====
-- `BF2::GetServers` of emulator/bf2.cpp: the rewriting of a query, which is a condition of SQL.
use gamespy_emulator.Prelude.{
  ℕ, Bool, true, Option, none, some, Bytes, [], ◌∷◌, ◌++◌, codes, if◌then◌else◌, ◌==◌, after_prefix,
}

-- The text before the first occurrence of a text, and the text behind it.
abbrev pub more_before : ℕ → Option (Bytes × Bytes) → Option (Bytes × Bytes)
more_before c none = none
more_before c (some (before, behind)) = some (c ∷ before, behind)

abbrev pub split_or : ℕ → Option (Bytes × Bytes) → Option Bytes → Option (Bytes × Bytes)
split_or c later (some behind) = some ([], behind)
split_or c later none = more_before c later

-- `find`
unfoldable pub split_at : Bytes → Bytes → Option (Bytes × Bytes)
split_at key [] = elim (after_prefix key []) [ none ↦ none | some behind ↦ some ([], behind) ]
split_at key (c ∷ cs) = split_or c (split_at key cs) (after_prefix key (c ∷ cs))

-- The test of the character before the position; there is none at the start.
abbrev pub ends_in_space : Bytes → Bool
ends_in_space [] = true
ends_in_space (c ∷ []) = c == b' '
ends_in_space (c ∷ d ∷ cs) = ends_in_space (d ∷ cs)

abbrev pub insert_and : Bytes → Option (Bytes × Bytes) → Bytes
insert_and query none = query
insert_and query (some (before, behind)) =
    if ends_in_space before then query else before ++ codes " and " ++ codes "gametype" ++ behind

-- The first step: `gametype` is joined by `and` to what stands right before it.
unfoldable pub join_gametype : Bytes → Bytes
join_gametype query = insert_and query (split_at (codes "gametype") query)

-- The loop that doubles the quotes.
unfoldable pub double_quotes : Bytes → Bytes
double_quotes [] = []
double_quotes (c ∷ cs) = (if c == b'\'' then c ∷ c ∷ [] else c ∷ []) ++ double_quotes cs

abbrev pub hostname_query : Bytes
hostname_query = codes "hostname like '%"

abbrev pub literal_end : Bytes
literal_end = codes "%'"

abbrev pub escape_name : Bytes → Bytes → Option (Bytes × Bytes) → Bytes
escape_name query before none = query
escape_name query before (some (name, rest)) =
    before ++ (hostname_query ++ (double_quotes name ++ (literal_end ++ rest)))

abbrev pub escape_behind : Bytes → Option (Bytes × Bytes) → Bytes
escape_behind query none = query
escape_behind query (some (before, behind)) = escape_name query before (split_at literal_end behind)

-- The second step: the quotes of a host name are doubled.
unfoldable pub escape_hostname : Bytes → Bytes
escape_hostname query = escape_behind query (split_at hostname_query query)

-- Both steps.
unfoldable pub rewrite_query : Bytes → Bytes
rewrite_query query = escape_hostname (join_gametype query)
