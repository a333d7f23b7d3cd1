-- ===== src/Login/Handlers.antt =====
-- The handlers of `LoginClient` and the dispatch of `Process`.
use gamespy_emulator.Login.Messages.{
  error_message, challenge_message, login_message, new_user_message, player_message,
}
use gamespy_emulator.Md5.{md5}
use gamespy_emulator.Players.{PlayerData, PlayerDb}
use gamespy_emulator.Prelude.{
  ℕ, zero, suc, ◌-◌, Bool, true, false, not, Option, none, some, List, Bytes, [], ◌∷◌, ◌++◌, codes,
  if◌then◌else◌, ltb, length, take, map, equal, starts_with, is_lower,
}
use gamespy_emulator.Utils.Challenge.{generate_challenge}
use gamespy_emulator.Utils.KeyValue.{value_for_key, value_for_key_uint32}
use gamespy_emulator.Utils.ReadUntil.{read_until}
use gamespy_emulator.Utils.Password.{Base64, passdecode}

-- `STATES`
pub data State : Type 0 where
  initializing authenticating authenticated logging_out : State

pub record Client : Type 0 where
  pub state : State
  pub player_data : Option PlayerData
  pub server_challenge : Bytes
  pub login_ticket : Bytes
  pub is_open : Bool

-- A new connection.
abbrev pub connected : Client
connected = record {
  state = initializing;
  player_data = none;
  server_challenge = [];
  login_ticket = [];
  is_open = true;
}

-- `std::toupper` in the "C" locale.
abbrev pub to_upper : ℕ → ℕ
to_upper c = if is_lower c then c - 32 else c

abbrev pub invalid_query : Bytes
invalid_query = codes "Invalid Query!"

-- `SendChallenge`: the two random texts are given.
unfoldable pub send_challenge : Bytes → Bytes → Client → Client × Bytes
send_challenge challenge ticket c = (
  record c {
    server_challenge = challenge;
    login_ticket = ticket ++ codes "__";
    state = authenticating;
  },
  challenge_message challenge,
)

-- The player name of a login: the unique nick if there is one, else `<nick>@<email>`.
abbrev pub login_name : Option Bytes → Option Bytes → Option Bytes
login_name (some unique_nick) user = some unique_nick
login_name none user = user

module _ (db : PlayerDb) (base64 : Base64) (crc16 : Bytes → ℕ) where
  open db use {Store, has_player, get_player_by_name, create_player, update_player}

  -- What a handler leaves. `fault` is the use of an empty optional, which is undefined.
  pub data Outcome : Type 0 where
    done : Client → Store → List Bytes → Outcome
    fault : Outcome

  -- Nothing but a fatal error with the given numbers.
  abbrev pub reject : ℕ → ℕ → Bytes → Client → Store → Outcome
  reject request_id code message c s = done c s (error_message request_id code message true ∷ [])

  -- The end of `HandleLogin`: the player is known and the response was right.
  abbrev pub log_in : Bytes → PlayerData → Bytes → Client → Store → Outcome
  log_in name player client_challenge c s =
      let data' = record player { session = crc16 name } in
      let proof =
        generate_challenge data'.name player.password c.server_challenge client_challenge in
      done (record c { player_data = some data'; state = authenticated }) s
        (login_message data' c.login_ticket proof 1 ∷ [])

  -- From the comparison of the responses on.
  abbrev pub check_response : Bytes → Option PlayerData → Bytes → Bytes → Client → Store → Outcome
  check_response name none client_challenge response c s = fault
  check_response name (some player) client_challenge response c s =
      if not (
        equal response
          (generate_challenge name player.password client_challenge c.server_challenge))
      then reject 1 260 (codes "The password provided is incorrect.") c s
      else log_in name player client_challenge c s

  -- From the look-up of the player on.
  abbrev pub find_player : Bytes → Bytes → Bytes → Client → Store → Outcome
  find_player [] client_challenge response c s = reject 1 0 invalid_query c s
  find_player (n ∷ ame) client_challenge response c s =
      if not (has_player s (n ∷ ame))
      then reject 1 265 (codes "Username [" ++ ((n ∷ ame) ++ codes "] doesn't exist!")) c s
      else check_response (n ∷ ame) (get_player_by_name s (n ∷ ame)) client_challenge response c s

  -- From the test of the values on.
  abbrev pub login_values : Option Bytes → Option Bytes → Option Bytes → Client → Store → Outcome
  login_values (some name) (some client_challenge) (some response) c s =
      find_player name client_challenge response c s
  login_values _ _ _ c s = reject 1 0 invalid_query c s

  abbrev pub login_in : State → Bytes → Client → Store → Outcome
  login_in authenticating packet c s =
      login_values
        (login_name (value_for_key packet (codes "\\uniquenick\\"))
          (value_for_key packet (codes "\\user\\")))
        (value_for_key packet (codes "\\challenge\\")) (value_for_key packet (codes "\\response\\"))
        c s
  login_in _ packet c s = done c s []

  -- `HandleLogin`
  unfoldable pub handle_login : Bytes → Client → Store → Outcome
  handle_login packet c s = login_in c.state packet c s

  -- The account that a `newuser` packet asks for.
  abbrev pub create_account : Bytes → Bytes → Bytes → Client → Store → Outcome
  create_account nick email password c s =
      let asked : PlayerData = record {
        id = 0;
        name = nick;
        email = email;
        password = md5 password;
        country = codes "??";
        session = 0;
      } in
      let (s', created) = create_player s asked in
      done (record c { player_data = some created }) s' (new_user_message created ∷ [])

  abbrev pub new_user_values : Option Bytes → Option Bytes → Option Bytes → Client → Store → Outcome
  new_user_values (some email) (some nick) (some password_enc) c s =
      let password = passdecode base64 password_enc in
      if has_player s nick
      then reject 1 516 (codes "This account name is already in use!") c s
      else if ltb (length password) 3
      then reject 1 0 (codes "The password is too short, must be 3 characters at least!") c s
      else if ltb 30 (length password)
      then reject 1 0 (codes "The password is too long, must be 30 characters at most!") c s
      else create_account nick email password c s
  new_user_values _ _ _ c s = reject 1 0 invalid_query c s

  abbrev pub new_user_in : State → Bytes → Client → Store → Outcome
  new_user_in authenticating packet c s =
      new_user_values (value_for_key packet (codes "\\email\\"))
        (value_for_key packet (codes "\\nick\\")) (value_for_key packet (codes "\\passwordenc\\")) c
        s
  new_user_in _ packet c s = reject 1 0 invalid_query c s

  -- `HandleNewUser`
  unfoldable pub handle_new_user : Bytes → Client → Store → Outcome
  handle_new_user packet c s = new_user_in c.state packet c s

  -- `SendPlayerData`
  abbrev pub send_player_data : ℕ → Option PlayerData → Client → Store → Outcome
  send_player_data request_id none c s = fault
  send_player_data request_id (some p) c s =
      done c s (player_message p c.login_ticket request_id ∷ [])

  abbrev pub get_profile_in : State → ℕ → Client → Store → Outcome
  get_profile_in authenticated request_id c s = send_player_data request_id c.player_data c s
  get_profile_in _ request_id c s = reject request_id 0 invalid_query c s

  -- `HandleGetProfile`
  unfoldable pub handle_get_profile : Bytes → Client → Store → Outcome
  handle_get_profile packet c s = elim (value_for_key_uint32 packet (codes "\\id\\")) [
    | none ↦ reject 0 0 invalid_query c s
    | some request_id ↦ get_profile_in c.state request_id c s
  ]

  abbrev pub set_country : Option Bytes → Option PlayerData → Client → Store → Outcome
  set_country none player c s = done c s []
  set_country (some code) none c s = fault
  set_country (some code) (some p) c s =
      let p' = record p { country = map to_upper code } in
      done (record c { player_data = some p' }) (update_player s p') []

  abbrev pub update_profile_in : State → Bytes → Client → Store → Outcome
  update_profile_in authenticated packet c s =
      set_country (value_for_key packet (codes "\\countrycode\\")) c.player_data c s
  update_profile_in _ packet c s = reject 0xFFFFFFFF 0 invalid_query c s

  -- `HandleUpdateProfile`; the request id of its error is -1 as an unsigned number.
  unfoldable pub handle_update_profile : Bytes → Client → Store → Outcome
  handle_update_profile packet c s = update_profile_in c.state packet c s

  -- `HandleLogout`
  abbrev pub handle_logout : Client → Store → Outcome
  handle_logout c s = done (record c { is_open = false }) s []

  -- The dispatch in `Process`: the tests are on the buffer, the handlers get the packet, which is
  -- the first `size` bytes of it.
  unfoldable pub process_packet : Bytes → ℕ → Client → Store → Outcome
  process_packet buffer size c s =
      let packet = take size buffer in
      if starts_with (codes "\\login\\") buffer
      then handle_login packet c s
      else if starts_with (codes "\\newuser\\") buffer
      then handle_new_user packet c s
      else if starts_with (codes "\\getprofile\\") buffer
      then handle_get_profile packet c s
      else if starts_with (codes "\\updatepro\\") buffer
      then handle_update_profile packet c s
      else if starts_with (codes "\\logout\\") buffer
      then handle_logout c s
      else done c s (error_message 0 0 invalid_query false ∷ [])

  -- What is sent in front of what a later packet sends.
  abbrev pub also_sent : List Bytes → Outcome → Outcome
  also_sent sent fault = fault
  also_sent sent (done c s more) = done c s (sent ++ more)

  -- The loop of `Process` over what is received: the next packet ends with the first `\final\`, is
  -- handled and then erased. A connection that was closed, or 2048 bytes with no end of a packet,
  -- end it here. Each packet has seven bytes at least, so as many rounds as there are bytes are
  -- enough.
  unfoldable pub process : ℕ → Bytes → Client → Store → Outcome
  process zero buffer c s = done c s []
  process (suc fuel) buffer c s =
      if not c.is_open then done c s [] else elim (read_until (codes "\\final\\") 2048 buffer) [
        | none ↦ done c s []
        | some cut ↦ elim (process_packet (take 2048 buffer) (length cut.packet) c s) [
          | fault ↦ fault
          | done c' s' sent ↦ also_sent sent (process fuel cut.rest c' s')
        ]
      ]
