-- ===== src/Stats/Client.antt =====
-- `StatsClient`: the authentication of the game server, and the packets that follow.
use gamespy_emulator.Game.Data.{Game}
use gamespy_emulator.Game.Database.{find_game}
use gamespy_emulator.Md5.{md5}
use gamespy_emulator.Players.{PlayerData, PlayerDb, get_profile_id}
use gamespy_emulator.Prelude.{
  ℕ, ◌-◌, ◌%◌, ◌^◌, Bool, true, false, not, ◌||◌, Option, none, some, List, Bytes, [], ◌∷◌, ◌++◌,
  codes, if◌then◌else◌, ltb, equal, starts_with, bit_xor,
}
use gamespy_emulator.Stats.Challenge.{
  create_challenge, challenge_xor, g_crc32, signed_decimal, frame,
}
use gamespy_emulator.Utils.KeyValue.{value_for_key, value_for_key_uint32}
use gamespy_emulator.Utils.Number.{decimal}
use gamespy_emulator.Utils.Password.{replace}

-- The client, with what was written to its socket and the snapshots that were uploaded.
pub record Client : Type 0 where
  pub server_challenge : Bytes
  pub session_key : ℕ
  pub sent : List Bytes
  pub snapshots : List Bytes

-- A new connection.
abbrev pub connected : Client
connected = record { server_challenge = []; session_key = 0; sent = []; snapshots = [] }

-- `SendPacket`
unfoldable pub send_packet : Bytes → Client → Client
send_packet message c = record c { sent = c.sent ++ frame message ∷ [] }

-- The time as a positive number of 32 bits.
abbrev pub new_session_key : ℕ → ℕ
new_session_key now = let key = now % 2 ^ 32 in if ltb key (2 ^ 31) then key else 2 ^ 32 - key

abbrev pub fatal_error : Bytes → Bytes
fatal_error what = codes "\\error\\\\err\\0\\fatal\\\\errmsg\\" ++ what ++ codes "\\id\\1"

-- `SendPacket` of the challenge.
unfoldable pub challenge : Bytes → Client → Client
challenge server_challenge c =
    send_packet (codes "\\lc\\1\\challenge\\" ++ server_challenge ++ codes "\\id\\1")
      (record c { server_challenge = server_challenge })

-- The text that the game server has to send.
abbrev pub expected_response : Bytes → Game → Bytes
expected_response server_challenge game =
    md5 (signed_decimal (g_crc32 server_challenge) ++ game.game_data.secret_key)

unfoldable pub check_response : ℕ → Bytes → Game → Client → Client × Bool
check_response now packet game c = elim (value_for_key packet (codes "\\response\\")) [
  | none ↦ (send_packet (fatal_error (codes "Invalid Response!")) c, false)
  | some response ↦
      if not (equal response (expected_response c.server_challenge game))
      then (send_packet (fatal_error (codes "Invalid Response!")) c, false)
      else let key = new_session_key now in
        (
          send_packet
              (codes "\\lc\\2\\sesskey\\" ++ signed_decimal key ++ codes "\\proof\\0\\id\\1")
              (record c { session_key = key }),
          true,
        )
]

-- `Authenticate`, behind the challenge: the first packet, if there is one.
unfoldable pub check_auth : List Game → ℕ → Option Bytes → Client → Client × Bool
check_auth games now none c = (c, false)
check_auth games now (some packet) c = elim (value_for_key packet (codes "\\gamename\\")) [
  | none ↦ (c, false)
  | some gamename ↦
      if not (starts_with (codes "\\auth\\") packet) || equal gamename []
      then (c, false)
      else elim (find_game gamename games) [
        | none ↦ (send_packet (fatal_error (codes "Unknown Game!")) c, false)
        | some game ↦ check_response now packet game c
      ]
]

-- `HandeSnapshot`; the upload is kept where an endpoint is configured.
unfoldable pub hande_snapshot : Bool → Bytes → Client → Client
hande_snapshot false data_text c = c
hande_snapshot true data_text c = record c { snapshots = c.snapshots ++ data_text ∷ [] }

-- The answer of a player who logged in with the session key.
abbrev pub player_response : ℕ → PlayerData → Bytes
player_response session_key player =
    md5 (player.password ++ create_challenge (bit_xor session_key challenge_xor))

abbrev pub refused : Bytes → Bytes
refused local_id = codes "\\pauthr\\-1\\lid\\" ++ local_id

abbrev pub accepted : PlayerData → Bytes → Bytes
accepted player local_id =
    codes "\\pauthr\\" ++ decimal (get_profile_id player) ++ codes "\\lid\\" ++ local_id

-- The reply to `PreAuthenticatePlayerPM`.
abbrev pub player_reply : ℕ → Option PlayerData → Option Bytes → Bytes → Bytes
player_reply session_key (some player) (some resp) local_id =
    if equal resp (player_response session_key player)
    then accepted player local_id
    else refused local_id
player_reply session_key _ _ local_id = refused local_id

abbrev pub first_of : List Bytes → Option Bytes
first_of [] = none
first_of (p ∷ ps) = some p

abbrev pub rest_of : List Bytes → List Bytes
rest_of [] = []
rest_of (p ∷ ps) = ps

abbrev pub missing_lid : Bytes
missing_lid = codes "\\error\\\\err\\0\\fatal\\\\errmsg\\missing lid parameter\\id\\1"

module _ (db : PlayerDb) (endpoint : Bool) where
  open db use {Store, get_player_by_pid}

  unfoldable pub authenticate_player : Store → Bytes → Bytes → Client → Client
  authenticate_player s packet local_id c = elim (value_for_key packet (codes "\\authtoken\\")) [
    | some token ↦ c
    | none ↦ elim (value_for_key_uint32 packet (codes "\\pid\\")) [
      | none ↦ c
      | some pid ↦
          send_packet
            (player_reply c.session_key (get_player_by_pid s pid)
              (value_for_key packet (codes "\\resp\\")) local_id)
            c
    ]
  ]

  -- The packet `\authp\`.
  unfoldable pub handle_authp : Store → Bytes → Client → Client
  handle_authp s packet c = elim (value_for_key packet (codes "\\lid\\")) [
    | none ↦ send_packet missing_lid c
    | some local_id ↦
        if equal local_id []
        then send_packet missing_lid c
        else authenticate_player s packet local_id c
  ]

  -- The packet `\updgame\`.
  unfoldable pub handle_updgame : Bytes → Client → Client
  handle_updgame packet c = elim (value_for_key packet (codes "\\gamedata\\")) [
    | none ↦ c
    | some game_data ↦ hande_snapshot endpoint (replace 1 b'\\' game_data) c
  ]

  -- One packet of the loop of `Process`; the other packets are only logged.
  unfoldable pub handle_packet : Store → Bytes → Client → Client
  handle_packet s packet c =
      if starts_with (codes "\\getpid\\") packet
      then c
      else if starts_with (codes "\\getpd\\") packet
      then c
      else if starts_with (codes "\\authp\\") packet
      then handle_authp s packet c
      else if starts_with (codes "\\setpd\\") packet
      then c
      else if starts_with (codes "\\updgame\\") packet
      then handle_updgame packet c
      else c

  unfoldable pub handle_packets : Store → List Bytes → Client → Client
  handle_packets s [] c = c
  handle_packets s (p ∷ ps) c = handle_packets s ps (handle_packet s p c)

  -- `Process`
  unfoldable pub process : List Game → Bytes → ℕ → Store → List Bytes → Client → Client
  process games server_challenge now s packets c =
      let (c', ok) = check_auth games now (first_of packets) (challenge server_challenge c) in
      if ok then handle_packets s (rest_of packets) c' else c'
