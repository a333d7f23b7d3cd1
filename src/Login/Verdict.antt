-- ===== src/Login/Verdict.antt =====
-- The login packet: the one reply that it gets.
use gamespy_emulator.Login.Messages.{error_message, login_message}
use gamespy_emulator.Login.Handlers.{authenticated, Client, login_name, Outcome, done}
use gamespy_emulator.Players.{PlayerData, PlayerDb}
use gamespy_emulator.Prelude.{
  ℕ, ◌≡◌, ◌≢◌, true, none, some, Bytes, [], ◌∷◌, ◌++◌, ◌⊎◌, false, codes,
}
use gamespy_emulator.Utils.Challenge.{generate_challenge}
use gamespy_emulator.Utils.KeyValue.{value_for_key}
use gamespy_emulator.Utils.Password.{Base64}

module _ (db : PlayerDb) (base64 : Base64) (crc16 : Bytes → ℕ) where
  open db use {Store, has_player, get_player_by_name, has-get}

  -- The answer to a login packet by what it says, what the database holds, and the challenge.
  pub data Verdict (packet : Bytes) (c : Client) (s : Store)
      : Outcome db base64 crc16 → Type 0 where
    incomplete :
        (login_name
              (value_for_key packet (codes "\\uniquenick\\"))
              (value_for_key packet (codes "\\user\\"))
            ≡ none)
          ⊎ (login_name
                (value_for_key packet (codes "\\uniquenick\\"))
                (value_for_key packet (codes "\\user\\"))
              ≡ some [])
          ⊎ (value_for_key packet (codes "\\challenge\\") ≡ none)
          ⊎ (value_for_key packet (codes "\\response\\") ≡ none)
        → Verdict packet c s (done c s (error_message 1 0 (codes "Invalid Query!") true ∷ []))
    unknown :
        (name : Bytes)
        → login_name
            (value_for_key packet (codes "\\uniquenick\\"))
            (value_for_key packet (codes "\\user\\"))
          ≡ some name
        → has_player s name ≡ false
        → Verdict packet c s (
            done c s (
              error_message 1 265 (codes "Username [" ++ name ++ codes "] doesn't exist!") true
              ∷ []))
    wrong :
        (name client_challenge response : Bytes) (player : PlayerData)
        → login_name
            (value_for_key packet (codes "\\uniquenick\\"))
            (value_for_key packet (codes "\\user\\"))
          ≡ some name
        → get_player_by_name s name ≡ some player
        → value_for_key packet (codes "\\challenge\\") ≡ some client_challenge
        → value_for_key packet (codes "\\response\\") ≡ some response
        → response ≢ generate_challenge name player.password client_challenge c.server_challenge
        → Verdict packet c s
            (done c s (error_message 1 260 (codes "The password provided is incorrect.") true ∷ []))
    right :
        (name client_challenge : Bytes) (player : PlayerData)
        → login_name
            (value_for_key packet (codes "\\uniquenick\\"))
            (value_for_key packet (codes "\\user\\"))
          ≡ some name
        → get_player_by_name s name ≡ some player
        → value_for_key packet (codes "\\challenge\\") ≡ some client_challenge
        → value_for_key packet (codes "\\response\\")
          ≡ some (generate_challenge name player.password client_challenge c.server_challenge)
        → Verdict packet c s (
            done
              (record c {
                player_data = some (record player { session = crc16 name });
                state = authenticated;
              })
              s
              (login_message
                  (record player { session = crc16 name })
                  c.login_ticket
                  (generate_challenge player.name player.password c.server_challenge
                    client_challenge)
                  1
                ∷ []))
