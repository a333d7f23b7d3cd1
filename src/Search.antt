-- ===== src/Search.antt =====
-- emulator/gpsp.client.h and emulator/gpsp.client.cpp: the client that searches players. The
-- bytes are given as they arrive.
use gamespy_emulator.Md5.{md5}
use gamespy_emulator.Players.{PlayerData, PlayerDb, get_profile_id}
use gamespy_emulator.Prelude.{
  ℕ, ◌≡◌, Bool, true, false, Option, none, some, Bytes, List, [], ◌∷◌, ◌++◌, codes, if◌then◌else◌,
  map, equal, starts_with, to_lower, suc,
}
use gamespy_emulator.Utils.KeyValue.{value_for_key}
use gamespy_emulator.Utils.Number.{decimal}
use gamespy_emulator.Utils.ReadUntil.{cut_all}
pub mod Replies
mod Tests

-- `SendError`
unfoldable pub error_message : ℕ → Bytes → Bool → Bytes
error_message code what fatal =
    codes "\\error\\\\err\\"
    ++ decimal code
    ++ codes "\\errmsg\\"
    ++ what
    ++ (if fatal then codes "\\fatal\\" else [])
    ++ codes "\\final\\"

-- `passwordMD5`: the digest of the password, or of the encoded password; the text that `passdecode`
-- gives is not used.
abbrev pub password_md5 : Option Bytes → Option Bytes → Bytes
password_md5 (some pass) pass_enc = md5 pass
password_md5 none (some pass_enc) = if equal pass_enc [] then [] else md5 pass_enc
password_md5 none none = []

-- The loop over the players.
unfoldable pub nicks : List PlayerData → Bytes
nicks [] = []
nicks (p ∷ ps) = codes "\\nick\\" ++ p.name ++ codes "\\uniquenick\\" ++ p.name ++ nicks ps

unfoldable pub nicks_reply : List PlayerData → Bytes
nicks_reply [] = error_message 551 (codes "Unable to get any associated profiles.") true
nicks_reply (p ∷ ps) = codes "\\nr\\0" ++ nicks (p ∷ ps) ++ codes "\\ndone\\\\final\\"

-- The name of the request: the nick if there is one, else the unique nick.
abbrev pub profile_name : Option Bytes → Option Bytes → Bytes
profile_name (some nick) unique_nick = nick
profile_name none (some unique_nick) = unique_nick
profile_name none none = []

abbrev pub pid_reply : PlayerData → Bytes
pid_reply player = codes "\\cur\\0\\pid\\" ++ decimal (get_profile_id player) ++ codes "\\final\\"

abbrev pub packets_of : Bytes → List Bytes
packets_of stream = cut_all (codes "\\final\\") 2048 stream

module _ (db : PlayerDb) where
  open db use {Store, has_player, get_player_by_name, get_player_by_mail_and_password}

  abbrev pub find_nicks : Store → Option Bytes → Bytes → Bytes
  find_nicks s none password = error_message 0 (codes "Invalid Query!") true
  find_nicks s (some email) password =
      if equal password []
      then error_message 0 (codes "Invalid Query!") true
      else nicks_reply (get_player_by_mail_and_password s (map to_lower email) password)

  -- `HandleSearchNicks`
  unfoldable pub handle_search_nicks : Store → Bytes → Bytes
  handle_search_nicks s packet = find_nicks s (value_for_key packet (codes "\\email\\")) (
      password_md5 (value_for_key packet (codes "\\pass\\"))
        (value_for_key packet (codes "\\passenc\\")))

  -- The player that `GetPlayerByName` returns; `none` where the code reads one that is not there.
  abbrev pub found_reply : Option PlayerData → Option Bytes
  found_reply none = none
  found_reply (some player) = some (pid_reply player)

  unfoldable pub find_profile : Store → Bytes → Option Bytes
  find_profile s name =
      if equal name []
      then some (error_message 0 (codes "Invalid Query!") true)
      else if has_player s name
      then found_reply (get_player_by_name s name)
      else some (error_message 265 (codes "Invalid Query!") true)

  -- `HandleProfileExists`
  unfoldable pub handle_profile_exists : Store → Bytes → Option Bytes
  handle_profile_exists s packet = find_profile s (
      profile_name (value_for_key packet (codes "\\nick\\"))
        (value_for_key packet (codes "\\uniquenick\\")))

  -- A packet of the loop of `Process`. The prefix is that of the whole buffer, which the packet
  -- starts.
  unfoldable pub handle_packet : Store → Bytes → Option Bytes
  handle_packet s packet =
      if starts_with (codes "\\nicks\\") packet
      then some (handle_search_nicks s packet)
      else if starts_with (codes "\\check\\") packet
      then handle_profile_exists s packet
      else some (error_message 0 (codes "Invalid Query!") false)

  abbrev pub then_replies : Option Bytes → Option (List Bytes) → Option (List Bytes)
  then_replies none replies = none
  then_replies (some reply) none = none
  then_replies (some reply) (some replies) = some (reply ∷ replies)

  -- The loop of `Process` over the packets: what is sent, in order.
  unfoldable pub answer_packets : Store → List Bytes → Option (List Bytes)
  answer_packets s [] = some []
  answer_packets s (p ∷ ps) = then_replies (handle_packet s p) (answer_packets s ps)

  -- `Process`: the packets end with the first `\final\`, each within 2048 bytes.
  unfoldable pub process : Store → Bytes → Option (List Bytes)
  unfolding answer_packets
  process s stream = answer_packets s (packets_of stream)
