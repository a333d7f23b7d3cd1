-- ===== src/Qr/TableParser.antt =====
-- `QRTable::Parse`: a count, column names up to an empty string, and the cells row by row.
use gamespy_emulator.Prelude.{
  ℕ, ◌*◌, ◌%◌, ◌^◌, Bool, true, false, not, ◌&&◌, ◌||◌, Bytes, List, [], ◌∷◌, ◌++◌, ◌==◌, ltb,
  if◌then◌else◌, equal, length, bit_or,
}
use gamespy_emulator.Qr.Base.{ParseError, Result, ok, err, too_small, unexpected_end}

abbrev pub Row : Type 0
Row = List Bytes

-- The variables of the loop.
pub record Table : Type 0 where
  pub headers_parsed : Bool
  pub headers : Row
  pub rows : List Row

-- `ends_with`
abbrev pub ends_with : Bytes → Bytes → Bool
ends_with end [] = equal [] end
ends_with end (c ∷ cs) = equal (c ∷ cs) end || ends_with end cs

abbrev pub is_empty {ℓ} : {A : Type ℓ} → List A → Bool
is_empty [] = true
is_empty (x ∷ xs) = false

-- `rows.back().size()`, 0 where there is no row.
abbrev pub back_size : List Row → ℕ
back_size [] = 0
back_size (r ∷ []) = length r
back_size (r ∷ s ∷ rows) = back_size (s ∷ rows)

-- `rows.back().push_back(column)`
abbrev pub push_cell : Bytes → List Row → List Row
push_cell column [] = []
push_cell column (r ∷ []) = (r ++ column ∷ []) ∷ []
push_cell column (r ∷ s ∷ rows) = r ∷ push_cell column (s ∷ rows)

-- The rows with a cell added, in a new row where there is none or the last is full.
unfoldable pub add_cell : ℕ → Bytes → List Row → List Row
add_cell width column rows =
    push_cell column (if is_empty rows || back_size rows == width then rows ++ [] ∷ [] else rows)

-- What the body of the loop does with one column: an error, `break`, or the next round.
pub data TableStep : Type 0 where
  failed : ParseError → TableStep
  stopped : Table → TableStep
  continued : Table → TableStep

-- The empty column behind the headers; without rows the table ends here.
abbrev pub end_headers : ℕ → Table → TableStep
end_headers count t = if count == 0 then stopped t else continued t

-- Behind a cell: the table ends when its last row is full.
abbrev pub filled : ℕ → Table → TableStep
filled count t =
    if length t.rows == count && back_size t.rows == length t.headers
    then stopped t
    else continued t

-- A column that is not taken for a header.
unfoldable pub table_column : ℕ → Table → Bytes → TableStep
table_column count t column =
    if is_empty t.headers
    then failed unexpected_end
    else if is_empty column
    then end_headers count (record t { headers_parsed = true })
    else filled count (record t { rows = add_cell (length t.headers) column t.rows })

unfoldable pub table_step : ℕ → Bytes → Table → Bytes → TableStep
table_step count header_end t column =
    if not t.headers_parsed && ends_with header_end column
    then continued (record t { headers = t.headers ++ column ∷ [] })
    else table_column count t column

-- The end of the bytes, as in the map.
abbrev pub table_end : Table → Bytes → Result (Table × Bytes)
table_end t [] = ok (t, [])
table_end t (c ∷ column) = err too_small

-- The loop; `column` is what `std::find` has passed since `pos`.
unfoldable pub table_loop : ℕ → Bytes → Table → Bytes → Bytes → Result (Table × Bytes)
table_loop count header_end t column [] = table_end t column
table_loop count header_end t column (b ∷ bytes) =
    if b == 0
    then elim (table_step count header_end t column) [
      | failed e ↦ err e
      | stopped t' ↦ ok (t', bytes)
      | continued t' ↦ table_loop count header_end t' [] bytes
    ]
    else table_loop count header_end t (column ++ b ∷ []) bytes

-- The test behind the loop.
unfoldable pub check_table : ℕ → Result (Table × Bytes) → Result (Table × Bytes)
check_table count (err e) = err e
check_table count (ok (t, bytes)) =
    if ltb (length t.rows) count
      || not (is_empty t.rows) && not (back_size t.rows == length t.headers)
    then err too_small
    else ok (t, bytes)

abbrev pub empty_table : Table
empty_table = record { headers_parsed = false; headers = []; rows = [] }

-- The big-endian count in front of a table.
abbrev pub table_count : ℕ → ℕ → ℕ
table_count high low = bit_or (high * 2 ^ 8 % 2 ^ 16) low

-- `QRTable::Parse`: the table, and the bytes from the new `pos` on.
unfoldable pub parse_table : Bytes → Bytes → Result (Table × Bytes)
parse_table header_end (high ∷ low ∷ bytes) =
    let count = table_count high low in
    check_table count (table_loop count header_end empty_table [] bytes)
parse_table header_end _ = err too_small
