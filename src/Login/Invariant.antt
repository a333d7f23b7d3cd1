-- ===== src/Login/Invariant.antt =====
-- When the login client uses its player, and what each handler leaves.
use gamespy_emulator.Login.Handlers.{authenticated, Client, Outcome, done}
use gamespy_emulator.Players.{PlayerData, PlayerDb}
use gamespy_emulator.Prelude.{ℕ, ◌≡◌, some, List, Bytes}
use gamespy_emulator.Utils.Password.{Base64}

-- An authenticated client holds its player.
abbrev pub IsSound : Client → Type 0
IsSound c = c.state ≡ authenticated → (p : PlayerData) × (c.player_data ≡ some p)

module _ (db : PlayerDb) (base64 : Base64) (crc16 : Bytes → ℕ) where
  open db use {Store, has_player, get_player_by_name, has-get, create_player}

  -- The handler returns, and leaves a sound client.
  pub record IsServed (o : Outcome db base64 crc16) : Type 0 where
    pub client : Client
    pub store : Store
    pub sent : List Bytes
    pub returns : o ≡ done client store sent
    pub sound : IsSound client
