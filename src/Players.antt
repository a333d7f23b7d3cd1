-- ===== src/Players.antt =====
-- emulator/playerdb.h and emulator/playerdb.cpp: the accounts, and the interface by which the
-- servers use them. `Table` is the one of emulator/playerdb.sqlite.cpp.
pub mod Table
use gamespy_emulator.Prelude.{ℕ, ◌≡◌, Bool, true, Option, none, some, List, Bytes}

-- `PlayerData`; both constructors set fields, and `session` starts at 0.
pub record PlayerData : Type 0 where
  pub id : ℕ
  pub name : Bytes
  pub email : Bytes
  pub password : Bytes
  pub country : Bytes
  pub session : ℕ

-- `GetUserID` and `GetProfileID`
abbrev pub get_user_id : PlayerData → ℕ
get_user_id p = p.id

abbrev pub get_profile_id : PlayerData → ℕ
get_profile_id p = p.id

-- `PlayerDB`: its operations over a state, and what the clients rely on: a name that is there can
-- be fetched.
pub record PlayerDb : Type 1 where
  pub Store : Type 0
  pub has_player : Store → Bytes → Bool
  pub get_player_by_name : Store → Bytes → Option PlayerData
  pub get_player_by_pid : Store → ℕ → Option PlayerData
  pub get_player_by_mail_and_password : Store → Bytes → Bytes → List PlayerData
  pub create_player : Store → PlayerData → Store × PlayerData
  pub update_player : Store → PlayerData → Store
  pub has-get :
      (s : Store) (name : Bytes)
      → has_player s name ≡ true
      → (p : PlayerData) × (get_player_by_name s name ≡ some p)
