-- ===== src/Bf2/Literal.antt =====
-- `BF2::GetServers`: the host name of a query as SQL reads it.
use gamespy_emulator.Bf2.Queries.{
  split_at, hostname_query, literal_end, double_quotes, escape_hostname, escape_behind, escape_name,
  rewrite_query, join_gametype,
}
use gamespy_emulator.Prelude.{
  ℕ, ◌≡◌, refl, ap, ◌∙◌, true, false, Option, none, some, Bytes, [], ◌∷◌, ◌++◌, codes,
  if◌then◌else◌, ◌==◌, starts_with, inl, inr, Bool-cases, arith,
}

abbrev cons_literal : ℕ → Option (Bytes × Bytes) → Option (Bytes × Bytes)
cons_literal c none = none
cons_literal c (some (text, rest)) = some (c ∷ text, rest)

-- A literal of SQL behind its opening quote: the text, in which two quotes stand for one, and what
-- stands behind the closing quote.
unfoldable pub read_literal : Bytes → Option (Bytes × Bytes)
read_literal [] = none
read_literal (c ∷ []) = if c == b'\'' then some ([], []) else none
read_literal (c ∷ d ∷ cs) =
    let skipped = read_literal cs in
    let later = read_literal (d ∷ cs) in
    if c == b'\''
    then if d == b'\'' then cons_literal c skipped else some ([], d ∷ cs)
    else cons_literal c later

read_literal-other :
    (c : ℕ) (cs : Bytes)
    → (c == b'\'') ≡ false
    → read_literal (c ∷ cs) ≡ cons_literal c (read_literal cs)
unfolding read_literal
read_literal-other c [] h = rw h refl
read_literal-other c (d ∷ cs) h = rw h refl

read_literal-quotes :
    (c : ℕ) (cs : Bytes)
    → (c == b'\'') ≡ true
    → read_literal (c ∷ c ∷ cs) ≡ cons_literal c (read_literal cs)
unfolding read_literal
read_literal-quotes c cs h = rw h refl

read_literal-end :
    (rest : Bytes)
    → starts_with (codes "'") rest ≡ false
    → read_literal (literal_end ++ rest) ≡ some (codes "%", rest)
unfolding read_literal
read_literal-end [] h = refl
read_literal-end (c ∷ rest) h = elim (Bool-cases (c == b'\'')) [
  | inl quote ↦ ground arith
  | inr other ↦ rw other refl
]

read_literal-double_quotes :
    (name rest : Bytes)
    → starts_with (codes "'") rest ≡ false
    → read_literal (double_quotes name ++ (literal_end ++ rest)) ≡ some (name ++ codes "%", rest)
unfolding double_quotes
read_literal-double_quotes [] rest h = read_literal-end rest h
read_literal-double_quotes (c ∷ name) rest h =
    let later = read_literal-double_quotes name rest h in
    elim (Bool-cases (c == b'\'')) [
      | inl quote ↦ rw (quote, read_literal-quotes c _ quote, later) refl
      | inr other ↦ rw (other, read_literal-other c _ other, later) refl
    ]

-- A query with the condition on a host name, which ends at the first `%'` and is not followed by
-- another quote: behind the opening quote of the rewritten query, SQL reads a literal with that
-- host name between `%` and `%`, and then what stood behind the condition.
pub rewrite_query-literal :
    (query before name rest : Bytes)
    → split_at hostname_query (join_gametype query) ≡ some (before, name ++ (literal_end ++ rest))
    → split_at literal_end (name ++ (literal_end ++ rest)) ≡ some (name, rest)
    → starts_with (codes "'") rest ≡ false
    → (behind : Bytes) × (rewrite_query query ≡ before ++ (codes "hostname like '" ++ behind))
      × (read_literal behind ≡ some (codes "%" ++ (name ++ codes "%"), rest))
unfolding rewrite_query escape_hostname
rewrite_query-literal query before name rest found ended closed =
    let later = double_quotes name ++ (literal_end ++ rest) in
    (
      codes "%" ++ later,
      rw (found, escape_behind, ended, escape_name) refl,
      read_literal-other b'%' later refl
          ∙ ap (cons_literal b'%') (read_literal-double_quotes name rest closed),
    )
