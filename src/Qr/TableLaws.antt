-- ===== src/Qr/TableLaws.antt =====
-- The shape of a table along the loop of its parser.
use mathlib.Core.Path.{subst}
use gamespy_emulator.Prelude.{
  ℕ, suc, ◌+◌, ◌≤◌, ◌<◌, ◌≡◌, refl, sym, ap, arith, Bytes, List, [], ◌∷◌, ◌++◌, ◌==◌, ◌&&◌, ◌||◌,
  not, if◌then◌else◌, true, false, Bool, Bool-cases, inl, inr, length, length-append,
}
use gamespy_emulator.Qr.Base.{Result, ok, err}
use gamespy_emulator.Qr.TableParser.{
  Row, Table, ends_with, is_empty, back_size, push_cell, add_cell, TableStep, failed, stopped,
  continued, filled, table_column, table_step, table_loop,
}

-- Every row has `width` cells.
abbrev pub AllWide : ℕ → List Row → Type 0
AllWide width [] = Unit
AllWide width (r ∷ rows) = (length r ≡ width) × AllWide width rows

-- Every row but the last has `width` cells, and the last has at most that many.
abbrev pub IsGrowing : ℕ → List Row → Type 0
IsGrowing width [] = Unit
IsGrowing width (r ∷ []) = length r ≤ width
IsGrowing width (r ∷ s ∷ rows) = (length r ≡ width) × IsGrowing width (s ∷ rows)

push_cell-IsGrowing :
    (width : ℕ) (column : Bytes) (rows : List Row)
    → back_size rows < width
    → IsGrowing width rows
    → IsGrowing width (push_cell column rows)
push_cell-IsGrowing width column [] lt g = tt
push_cell-IsGrowing width column (r ∷ []) lt g = omega (arith, length-append {0} r (column ∷ []))
push_cell-IsGrowing width column (r ∷ s ∷ []) lt g =
    (g.0, push_cell-IsGrowing width column (s ∷ []) lt g.1)
push_cell-IsGrowing width column (r ∷ s ∷ t ∷ rows) lt g =
    (g.0, push_cell-IsGrowing width column (s ∷ t ∷ rows) lt g.1)

new_row-IsGrowing :
    (width : ℕ) (column : Bytes) (rows : List Row)
    → 0 < width
    → (is_empty rows || back_size rows == width) ≡ true
    → IsGrowing width rows
    → IsGrowing width (push_cell column (rows ++ [] ∷ []))
new_row-IsGrowing width column [] pos full g = omega arith
new_row-IsGrowing width column (r ∷ []) pos full g = (ground arith, omega arith)
new_row-IsGrowing width column (r ∷ s ∷ []) pos full g =
    (g.0, new_row-IsGrowing width column (s ∷ []) pos full g.1)
new_row-IsGrowing width column (r ∷ s ∷ t ∷ rows) pos full g =
    (g.0, new_row-IsGrowing width column (s ∷ t ∷ rows) pos full g.1)

back_size-le : (width : ℕ) (rows : List Row) → IsGrowing width rows → back_size rows ≤ width
back_size-le width [] g = omega arith
back_size-le width (r ∷ []) g = g
back_size-le width (r ∷ s ∷ rows) g = back_size-le width (s ∷ rows) g.1

length-push_cell : (column : Bytes) (rows : List Row) → length (push_cell column rows) ≡ length rows
length-push_cell column [] = refl
length-push_cell column (r ∷ []) = refl
length-push_cell column (r ∷ s ∷ rows) = ap suc (length-push_cell column (s ∷ rows))

add_cell-IsGrowing :
    (width : ℕ) (column : Bytes) (rows : List Row)
    → 0 < width
    → IsGrowing width rows
    → IsGrowing width (add_cell width column rows)
unfolding add_cell
add_cell-IsGrowing width column rows pos g =
    elim (Bool-cases (is_empty rows || back_size rows == width)) [
      | inl full ↦ rw (full, add_cell) (new_row-IsGrowing width column rows pos full g)
      | inr open_row ↦
          rw (open_row, add_cell)
            (push_cell-IsGrowing width column rows (ground (arith, back_size-le width rows g)) g)
    ]

length-add_cell :
    (width : ℕ) (column : Bytes) (rows : List Row)
    → length (add_cell width column rows)
      ≡ (if is_empty rows || back_size rows == width then length rows + 1 else length rows)
unfolding add_cell
length-add_cell width column rows = ground (
  arith,
  length-push_cell column (rows ++ [] ∷ []),
  length-push_cell column rows,
  length-append {0} rows ([] ∷ []),
)

-- What holds of the table each time the loop goes on behind the headers.
pub record TableInv (count : ℕ) (t : Table) : Type 0 where
  pub parsed : t.headers_parsed ≡ true
  pub growing : IsGrowing (length t.headers) t.rows
  pub room : length t.rows ≤ count
  pub unfinished : length t.rows ≡ count → back_size t.rows < length t.headers

-- What holds of the table where the loop ends.
pub record TableEnd (count : ℕ) (t : Table) : Type 0 where
  pub growing : IsGrowing (length t.headers) t.rows
  pub room : length t.rows ≤ count

abbrev StepInv : ℕ → Row → TableStep → Type 0
StepInv count h (failed e) = Unit
StepInv count h (stopped t) = TableEnd count t × (t.headers ≡ h)
StepInv count h (continued t) = TableInv count t × (t.headers ≡ h)

filled-StepInv :
    (count : ℕ) (t : Table)
    → t.headers_parsed ≡ true
    → IsGrowing (length t.headers) t.rows
    → length t.rows ≤ count
    → StepInv count t.headers (filled count t)
filled-StepInv count t p g r =
    elim (Bool-cases (length t.rows == count && back_size t.rows == length t.headers)) [
      | inl e ↦ rw e (record { growing = g; room = r }, refl)
      | inr e ↦ rw e (
        record {
          parsed = p;
          growing = g;
          room = r;
          unfinished = λ q. ground (arith, back_size-le (length t.headers) t.rows g);
        },
        refl,
      )
    ]

length-of_not_empty : (h : Row) → is_empty h ≡ false → 0 < length h
length-of_not_empty [] e = cc
length-of_not_empty (c ∷ h) e = omega arith

table_column-StepInv :
    (count : ℕ) (t : Table) (column : Bytes)
    → 0 < count
    → TableInv count t
    → StepInv count t.headers (table_column count t column)
unfolding table_column
table_column-StepInv count t column pos v = elim (Bool-cases (is_empty t.headers)) [
  | inl none_yet ↦ rw none_yet tt
  | inr some_header ↦ rw some_header (elim (Bool-cases (is_empty column)) [
    | inl end ↦ rw end (still_open (count == 0) (ground arith))
    | inr cell ↦ rw cell (
        filled-StepInv count (record t { rows = add_cell (length t.headers) column t.rows })
          v.parsed
          (add_cell-IsGrowing (length t.headers) column t.rows
            (length-of_not_empty t.headers some_header) v.growing)
          (added_room (length-add_cell (length t.headers) column t.rows)))
  ])
]
  where
    still_open :
        (none : Bool)
        → none ≡ false
        → StepInv count t.headers (
            if none
            then stopped (record t { headers_parsed = true })
            else continued (record t { headers_parsed = true }))
    still_open none e = rw e (
      record { parsed = refl; growing = v.growing; room = v.room; unfinished = v.unfinished },
      refl,
    )

    added_room :
        length (add_cell (length t.headers) column t.rows) ≡ (
          if is_empty t.rows || back_size t.rows == length t.headers
          then length t.rows + 1
          else length t.rows)
        → length (add_cell (length t.headers) column t.rows) ≤ count
    added_room e = room_left t.rows e v.room v.unfinished
      where
        room_left :
            (rows : List Row) {n : ℕ}
            → n ≡ (
                if is_empty rows || back_size rows == length t.headers
                then length rows + 1
                else length rows)
            → length rows ≤ count
            → (length rows ≡ count → back_size rows < length t.headers)
            → n ≤ count
        room_left [] e r u = ground arith
        room_left (r ∷ rows) e r' u = ground arith

table_step-StepInv :
    (count : ℕ) (header_end : Bytes) (t : Table) (column : Bytes)
    → 0 < count
    → TableInv count t
    → StepInv count t.headers (table_step count header_end t column)
unfolding table_step
table_step-StepInv count header_end t column pos v =
    subst (StepInv count t.headers)
      (sym (
        ap
          (λ b.
            if not b && ends_with header_end column
            then continued (record t { headers = t.headers ++ column ∷ [] })
            else table_column count t column)
          v.parsed))
      (table_column-StepInv count t column pos v)

abbrev pub LoopEnd : ℕ → Row → Result (Table × Bytes) → Type 0
LoopEnd count h (err e) = Unit
LoopEnd count h (ok (t, rest)) = TableEnd count t × (t.headers ≡ h)

step_LoopEnd :
    (count : ℕ) (h : Row) (s : TableStep) (bytes : Bytes) (more : Table → Result (Table × Bytes))
    → StepInv count h s
    → ((t : Table) → TableInv count t → t.headers ≡ h → LoopEnd count h (more t))
    → LoopEnd count h
        (elim s [ failed e ↦ err e | stopped t' ↦ ok (t', bytes) | continued t' ↦ more t' ])
step_LoopEnd count h (failed e) bytes more v next = tt
step_LoopEnd count h (stopped t) bytes more v next = v
step_LoopEnd count h (continued t) bytes more v next = next t v.0 v.1

pub table_loop-LoopEnd :
    (bytes : Bytes) (count : ℕ) (header_end : Bytes) (t : Table) (column : Bytes)
    → 0 < count
    → TableInv count t
    → LoopEnd count t.headers (table_loop count header_end t column bytes)
unfolding table_loop
table_loop-LoopEnd [] count header_end t [] pos v =
    (record { growing = v.growing; room = v.room }, refl)
table_loop-LoopEnd [] count header_end t (c ∷ column) pos v = tt
table_loop-LoopEnd (b ∷ bytes) count header_end t column pos v = elim (Bool-cases (b == 0)) [
  | inl e ↦ rw e (
      step_LoopEnd count t.headers (table_step count header_end t column) bytes
        (λ t'. table_loop count header_end t' [] bytes)
        (table_step-StepInv count header_end t column pos v)
        (λ t' v' h. rw (← h) (table_loop-LoopEnd bytes count header_end t' [] pos v')))
  | inr e ↦ rw e (table_loop-LoopEnd bytes count header_end t (column ++ b ∷ []) pos v)
]
