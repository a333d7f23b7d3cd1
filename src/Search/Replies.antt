-- ===== src/Search/Replies.antt =====
-- `SearchClient::Process`: the replies to a sequence of packets.
use gamespy_emulator.Players.{PlayerData, PlayerDb}
use gamespy_emulator.Prelude.{
  ◌≡◌, ◌⊎◌, true, false, Option, none, some, Bytes, List, [], ◌∷◌, codes, map, starts_with,
  to_lower,
}
use gamespy_emulator.Search.{error_message, password_md5, nicks_reply, profile_name, pid_reply}
use gamespy_emulator.Utils.KeyValue.{value_for_key}

module _ (db : PlayerDb) (s : PlayerDb.Store db) where
  open db use {has_player, get_player_by_name, get_player_by_mail_and_password}

  -- The email and the digest of the password that a packet gives.
  abbrev pub IsSearch : Bytes → Bytes → Bytes → Type 0
  IsSearch packet email password =
      (starts_with (codes "\\nicks\\") packet ≡ true)
      × (value_for_key packet (codes "\\email\\") ≡ some email)
      × (password_md5 (value_for_key packet (codes "\\pass\\"))
            (value_for_key packet (codes "\\passenc\\"))
          ≡ password)

  -- The name that a packet gives.
  abbrev pub IsCheck : Bytes → Bytes → Type 0
  IsCheck packet name =
      (starts_with (codes "\\check\\") packet ≡ true)
      × (profile_name (value_for_key packet (codes "\\nick\\"))
            (value_for_key packet (codes "\\uniquenick\\"))
          ≡ name)

  -- The replies that a packet may get, with what the database says.
  pub data Answers (packet : Bytes) : Bytes → Type 0 where
    neither :
        starts_with (codes "\\nicks\\") packet ≡ false
        → starts_with (codes "\\check\\") packet ≡ false
        → Answers packet (error_message 0 (codes "Invalid Query!") false)
    no_search :
        starts_with (codes "\\nicks\\") packet ≡ true
        → (value_for_key packet (codes "\\email\\") ≡ none)
          ⊎ (password_md5
                (value_for_key packet (codes "\\pass\\"))
                (value_for_key packet (codes "\\passenc\\"))
              ≡ [])
        → Answers packet (error_message 0 (codes "Invalid Query!") true)
    no_check : IsCheck packet [] → Answers packet (error_message 0 (codes "Invalid Query!") true)
    nobody :
        (email password : Bytes)
        → IsSearch packet email password
        → get_player_by_mail_and_password s (map to_lower email) password ≡ []
        → Answers packet (error_message 551 (codes "Unable to get any associated profiles.") true)
    listed :
        (email password : Bytes) (player : PlayerData) (players : List PlayerData)
        → IsSearch packet email password
        → get_player_by_mail_and_password s (map to_lower email) password ≡ player ∷ players
        → Answers packet (nicks_reply (player ∷ players))
    unknown :
        (name : Bytes)
        → IsCheck packet name
        → has_player s name ≡ false
        → Answers packet (error_message 265 (codes "Invalid Query!") true)
    profile :
        (name : Bytes) (player : PlayerData)
        → IsCheck packet name
        → get_player_by_name s name ≡ some player
        → Answers packet (pid_reply player)

  -- One reply for each packet, in their order.
  pub data EachAnswers : List Bytes → List Bytes → Type 0 where
    done : EachAnswers [] []
    then_answers :
        {p r : Bytes} {ps rs : List Bytes}
        → Answers p r
        → EachAnswers ps rs
        → EachAnswers (p ∷ ps) (r ∷ rs)

  abbrev Replied : Bytes → Option Bytes → Type 0
  Replied packet o = (reply : Bytes) × (o ≡ some reply) × Answers packet reply
