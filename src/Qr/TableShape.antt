-- ===== src/Qr/TableShape.antt =====
-- Tables whose column names stand in front of their cells.
use mathlib.Core.List.{append-nil, append_assoc}
use mathlib.Core.Path.{subst}
use gamespy_emulator.Prelude.{
  ℕ, ◌≤◌, ◌<◌, ◌≡◌, ◌⊎◌, refl, sym, ap, ◌∙◌, arith, Bytes, List, [], ◌∷◌, ◌++◌, ◌==◌, true, false,
  Bool-cases, inl, inr, length,
}
use gamespy_emulator.Qr.Base.{Result, ok, err}
use gamespy_emulator.Qr.MapLaws.{IsNulFree}
use gamespy_emulator.Qr.TableParser.{
  Row, Table, ends_with, is_empty, back_size, table_column, table_step, table_loop, check_table,
  empty_table, table_count, parse_table,
}
use gamespy_emulator.Qr.TableLaws.{AllWide, IsGrowing, LoopEnd, table_loop-LoopEnd}

-- Strings with their terminators.
abbrev pub write_columns : Row → Bytes → Bytes
write_columns [] rest = rest
write_columns (h ∷ hs) rest = h ++ (0 ∷ write_columns hs rest)

abbrev pub AllHeaders : Bytes → Row → Type 0
AllHeaders end [] = Unit
AllHeaders end (h ∷ hs) = IsNulFree h × (ends_with end h ≡ true) × AllHeaders end hs

abbrev headed : Row → Table
headed hs = record { headers_parsed = false; headers = hs; rows = [] }

table_loop_scan :
    (count : ℕ) (end : Bytes) (t : Table) (column w bytes : Bytes)
    → IsNulFree w
    → table_loop count end t column (w ++ (0 ∷ bytes))
      ≡ table_loop count end t (column ++ w) (0 ∷ bytes)
unfolding table_loop
table_loop_scan count end t column [] bytes h =
    ap (λ s. table_loop count end t s (0 ∷ bytes)) (sym (append-nil column))
table_loop_scan count end t column (c ∷ w) bytes h = elim (Bool-cases (c == 0)) [
  | inl e ↦ absurd (h.0 (ground arith))
  | inr e ↦
      rw (e, table_loop)
        (table_loop_scan count end t (column ++ c ∷ []) w bytes h.1
          ∙ ap (λ s. table_loop count end t s (0 ∷ bytes)) (append_assoc column (c ∷ []) w))
]

-- The column names are taken one after the other.
table_loop_headers :
    (hs : Row) (count : ℕ) (end : Bytes) (before : Row) (rest : Bytes)
    → AllHeaders end hs
    → table_loop count end (headed before) [] (write_columns hs rest)
      ≡ table_loop count end (headed (before ++ hs)) [] rest
unfolding table_loop table_step
table_loop_headers [] count end before rest h =
    ap (λ b. table_loop count end (headed b) [] rest) (sym (append-nil before))
table_loop_headers (x ∷ hs) count end before rest h =
    table_loop_scan count end (headed before) [] x (write_columns hs rest) h.0
    ∙ rw (h.1, table_step)
        (table_loop_headers hs count end (before ++ x ∷ []) rest h.2
          ∙ ap (λ b. table_loop count end (headed b) [] rest) (append_assoc before (x ∷ []) hs))

-- The empty name behind them.
table_loop_end :
    (count : ℕ) (end : Bytes) (h : Bytes) (hs : Row) (rest : Bytes)
    → ends_with end [] ≡ false
    → 0 < count
    → table_loop count end (headed (h ∷ hs)) [] (0 ∷ rest)
      ≡ table_loop count end (record { headers_parsed = true; headers = h ∷ hs; rows = [] }) [] rest
unfolding table_loop table_step table_column
table_loop_end count end h hs rest e pos =
    let nonzero : (count == 0) ≡ false = ground arith in rw (e, table_step, nonzero) refl

AllWide-full :
    (width : ℕ) (rows : List Row)
    → IsGrowing width rows
    → (is_empty rows ≡ true) ⊎ (back_size rows ≡ width)
    → AllWide width rows
AllWide-full width [] g f = tt
AllWide-full width (r ∷ []) g f = (ground arith, tt)
AllWide-full width (r ∷ s ∷ rows) g f = (g.0, AllWide-full width (s ∷ rows) g.1 (ground arith))

-- The rows are as many as announced and as wide as the header, which is the one sent.
pub record IsRectangle (count : ℕ) (hs : Row) (t : Table) : Type 0 where
  pub headers_are : t.headers ≡ hs
  pub wide : AllWide (length hs) t.rows
  pub counted : length t.rows ≡ count

check_table-accepted :
    (count : ℕ) (t' : Table) (b : Bytes) {t : Table} {rest : Bytes}
    → check_table count (ok (t', b)) ≡ ok (t, rest)
    → (t' ≡ t)
      × (count ≤ length t'.rows)
      × ((is_empty t'.rows ≡ true) ⊎ (back_size t'.rows ≡ length t'.headers))
unfolding check_table
check_table-accepted count t' b e = (ground arith, ground arith, ground arith)

check_table-IsRectangle :
    (count : ℕ) (hs : Row) (r : Result (Table × Bytes)) {t : Table} {rest : Bytes}
    → LoopEnd count hs r
    → check_table count r ≡ ok (t, rest)
    → IsRectangle count hs t
unfolding check_table
check_table-IsRectangle count hs (err x) v e = cc
check_table-IsRectangle count hs (ok (t', b)) v e =
    let (same, enough, full) = check_table-accepted count t' b e in
    subst (IsRectangle count hs) same (record {
      headers_are = v.1;
      wide =
          subst (λ (h : Row). AllWide (length h) t'.rows) v.1
            (AllWide-full (length t'.headers) t'.rows v.0.growing full);
      counted = omega (arith, v.0.room);
    })

-- Where the column names, each with the suffix, stand in front of the cells and the count is not
-- 0, a table that is accepted has that header, the announced number of rows, and in each row as
-- many cells as there are columns.
pub parse_table-IsRectangle :
    (end : Bytes) (high low : ℕ) (h : Bytes) (hs : Row) (bytes : Bytes) {t : Table} {rest : Bytes}
    → ends_with end [] ≡ false
    → AllHeaders end (h ∷ hs)
    → 0 < table_count high low
    → parse_table end (high ∷ low ∷ write_columns (h ∷ hs) (0 ∷ bytes)) ≡ ok (t, rest)
    → IsRectangle (table_count high low) (h ∷ hs) t
unfolding parse_table
parse_table-IsRectangle end high low h hs bytes e a pos accepted =
    let count = table_count high low in
    let opened : Table = record { headers_parsed = true; headers = h ∷ hs; rows = [] } in
    let steps : table_loop count end empty_table [] (write_columns (h ∷ hs) (0 ∷ bytes))
        ≡ table_loop count end opened [] bytes =
      table_loop_headers (h ∷ hs) count end [] (0 ∷ bytes) a
      ∙ table_loop_end count end h hs bytes e pos in
    check_table-IsRectangle count (h ∷ hs) (table_loop count end opened [] bytes)
      (table_loop-LoopEnd bytes count end opened [] pos
        (record { parsed = refl; growing = tt; room = omega arith; unfinished = λ q. omega arith }))
      (ap (check_table count) (sym steps) ∙ accepted)
