-- ===== src/Players/Table.antt =====
-- emulator/playerdb.sqlite.cpp: the queries, on the rows of the table `player`. The other columns
-- keep their defaults and are not read. `AUTOINCREMENT` gives the next number of the sequence.
use gamespy_emulator.Prelude.{
  ℕ, ◌+◌, ◌≡◌, Bool, true, false, ◌&&◌, ◌||◌, Option, none, some, List, [], ◌∷◌, ◌++◌, Bytes, equal,
  ◌==◌, if◌then◌else◌, Bool-cases, inl, inr, map,
}
use gamespy_emulator.Players.{PlayerData, PlayerDb}

pub record Table : Type 0 where
  pub rows : List PlayerData
  pub sequence : ℕ

-- The table that the constructor creates.
abbrev pub new_table : Table
new_table = record { rows = []; sequence = 2900000 }

-- `SELECT … WHERE name=?`, the first row.
unfoldable pub row_by_name : Bytes → List PlayerData → Option PlayerData
row_by_name name [] = none
row_by_name name (r ∷ rows) = if equal r.name name then some r else row_by_name name rows

-- `SELECT COUNT(*) … > 0`
unfoldable pub any_named : Bytes → List PlayerData → Bool
any_named name [] = false
any_named name (r ∷ rows) = equal r.name name || any_named name rows

-- `SELECT … WHERE id=?`
unfoldable pub row_by_id : ℕ → List PlayerData → Option PlayerData
row_by_id pid [] = none
row_by_id pid (r ∷ rows) = if r.id == pid then some r else row_by_id pid rows

-- `SELECT … WHERE email=? AND password=?`
unfoldable pub rows_by_mail : Bytes → Bytes → List PlayerData → List PlayerData
rows_by_mail email password [] = []
rows_by_mail email password (r ∷ rows) =
    if equal r.email email && equal r.password password
    then r ∷ rows_by_mail email password rows
    else rows_by_mail email password rows

-- What is read back is built by the constructors, with no session.
abbrev pub fresh : PlayerData → PlayerData
fresh p = record p { session = 0 }

abbrev pub fresh? : Option PlayerData → Option PlayerData
fresh? none = none
fresh? (some p) = some (fresh p)

-- `INSERT … RETURNING id`; a second row of the same name breaks `UNIQUE`, the statement fails and
-- the table stays.
unfoldable pub create_row : Table → PlayerData → Table × PlayerData
create_row t p =
    let created = record p { id = t.sequence + 1 } in
    if any_named p.name t.rows
    then (t, p)
    else (record { rows = t.rows ++ created ∷ []; sequence = t.sequence + 1 }, created)

-- `UPDATE … SET password=?, email=?, country=? WHERE name=?`
unfoldable pub update_row : Table → PlayerData → Table
update_row t p = record t {
  rows =
      map
        (λ r.
          if equal r.name p.name
          then record r { password = p.password; email = p.email; country = p.country }
          else r)
        t.rows;
}

pub any_named-row :
    (name : Bytes) (rows : List PlayerData)
    → any_named name rows ≡ true
    → (p : PlayerData) × (fresh? (row_by_name name rows) ≡ some p)
unfolding any_named row_by_name
any_named-row name [] h = cc
any_named-row name (r ∷ rows) h = elim (Bool-cases (equal r.name name)) [
  | inl e ↦ (fresh r, rw e)
  | inr e ↦ let (p, f) = any_named-row name rows (rw e at h) in (p, rw e f)
]

-- `PlayerDBSQLite`
abbrev pub sqlite : PlayerDb
sqlite = record {
  Store = Table;
  has_player = λ t name. any_named name t.rows;
  get_player_by_name = λ t name. fresh? (row_by_name name t.rows);
  get_player_by_pid = λ t pid. fresh? (row_by_id pid t.rows);
  get_player_by_mail_and_password =
      λ t email password. map fresh (rows_by_mail email password t.rows);
  create_player = create_row;
  update_player = update_row;
  has-get = λ t name. any_named-row name t.rows;
}
