-- ===== src/Master/Handlers.antt =====
-- The handlers of `MasterServer`, and the dispatch of `AcceptConnections`.
use gamespy_emulator.Prelude.{
  take, drop, length, ℕ, Bool, Bytes, List, [], ◌∷◌, ◌++◌, none, some, if◌then◌else◌, equal, codes,
}
use gamespy_emulator.Qr.{
  QrPacket, ok, err, challenge, heartbeat, keepalive, prequery_ip_verify, Map, find,
  QrHeartbeatPacket, parse, parse_heartbeat,
}
use gamespy_emulator.Utils.Encode.{encode}
use gamespy_emulator.Game.Data.{
  Game, ServerData, Availability, available, disabled_temporary, disabled_permanently, Statement,
  Run, returned, threw, after_run,
}
use gamespy_emulator.Game.Servers.{add_or_update_server}
use gamespy_emulator.Master.State.{
  Endpoint, Server, Servers, Master, find_server, has_server, emplace_server, change_server,
  erase_server, address_text, response_data, c_string, drop_last,
}
use gamespy_emulator.Game.Database.{find_game, replace_game}

abbrev pub send_to : Endpoint → Bytes → Master → Master
send_to client bytes m = record {
  awaiting_validation = m.awaiting_validation;
  validated = m.validated;
  games = m.games;
  sent = m.sent ++ (client, bytes) ∷ [];
}

abbrev pub with_servers : Servers → Servers → Master → Master
with_servers awaiting validated m = record {
  awaiting_validation = awaiting;
  validated = validated;
  games = m.games;
  sent = m.sent;
}

abbrev pub with_games : List Game → Master → Master
with_games games m = record {
  awaiting_validation = m.awaiting_validation;
  validated = m.validated;
  games = games;
  sent = m.sent;
}

abbrev pub availability_byte : Availability → ℕ
availability_byte available = 0
availability_byte disabled_temporary = 1
availability_byte disabled_permanently = 2

-- `HandleAvailable`; a literal's own NUL is sent as well. On a packet with no content the source
-- reads out of bounds, here it does nothing.
unfoldable pub handle_available : Endpoint → QrPacket → Master → Master
handle_available client packet m = elim (drop_last packet.content) [
  | none ↦ m
  | some name ↦ elim (find_game name m.games) [
    | none ↦ m
    | some game ↦
        send_to client
          (0xFE ∷ 0xFD ∷ 0x09 ∷ 0 ∷ 0 ∷ 0 ∷ availability_byte game.game_data.availability ∷ 0 ∷ [])
          m
  ]
]

-- An entry with a new time, and one with a new time and new values.
abbrev pub touch : ℕ → Server → Server
touch now s = record {
  last_update = now;
  proof = s.proof;
  instance_key = s.instance_key;
  gamename = s.gamename;
  values = s.values;
}

abbrev refresh : ℕ → Map → Server → Server
refresh now values s = record {
  last_update = now;
  proof = s.proof;
  instance_key = s.instance_key;
  gamename = s.gamename;
  values = values;
}

-- The `IncomingServer` of a client.
abbrev pub incoming_server : ℕ → Endpoint → Map → ServerData
incoming_server now client values = record {
  last_update = now;
  public_ip = address_text client.address;
  public_port = client.port;
  private_ip = [];
  private_port = 0;
  icmp_ip = [];
  values = values;
  rules = [];
}

-- The first heartbeat: the challenge is sent, and its encoding kept.
abbrev challenge_server : Endpoint → ℕ → Bytes → QrHeartbeatPacket → Bytes → Bytes → Master → Master
challenge_server client now gamename packet proof bytes m = send_to client bytes (
    with_servers
      (emplace_server client
        (record {
          last_update = now;
          proof = proof;
          instance_key = packet.instance_key;
          gamename = gamename;
          values = packet.server_data;
        })
        m.awaiting_validation)
      m.validated m)

-- `HandleKeepAlive`
unfoldable pub handle_keep_alive : ℕ → Endpoint → Master → Master
handle_keep_alive now client m =
    if has_server client m.awaiting_validation
    then with_servers (change_server (touch now) client m.awaiting_validation) m.validated m
    else if has_server client m.validated
    then with_servers m.awaiting_validation (change_server (touch now) client m.validated) m
    else m

-- What is taken of a datagram: the buffer has 1400 bytes.
abbrev pub received : Bytes → Bytes
received bytes = take 1400 bytes

-- The buffer behind it.
abbrev pub buffer_after : Bytes → Bytes → Bytes
buffer_after bytes buffer = received bytes ++ drop (length (received bytes)) buffer

module _ (accepts : List Statement → Statement → Bool) (base64_encode : Bytes → Bytes) where
  -- `GetGame` and `AddOrUpdateServer`, either of which may throw.
  unfoldable pub update_game : Bytes → ServerData → Master → Run Master
  update_game name server m = elim (find_game name m.games) [
    | none ↦ threw m
    | some game ↦ elim (add_or_update_server accepts server game) [
      | threw game' ↦ threw (with_games (replace_game name game' m.games) m)
      | returned game' ↦ returned (with_games (replace_game name game' m.games) m)
    ]
  ]

  -- A heartbeat of a client for a game that is there.
  unfoldable pub heartbeat_of :
      ℕ → Bytes → Endpoint → QrHeartbeatPacket → Bytes → Game → Master → Run Master
  unfolding update_game
  heartbeat_of now random client packet gamename game m =
      let reply = response_data random game.game_data.backend client in
      if has_server client m.validated
      then update_game gamename (incoming_server now client packet.server_data) m
      else if has_server client m.awaiting_validation
      then returned (
          with_servers (change_server (refresh now packet.server_data) client m.awaiting_validation)
            m.validated m)
      else elim (encode base64_encode game.game_data.secret_key reply) [
        | none ↦ threw m
        | some proof ↦ returned (
            challenge_server client now gamename packet proof
              (0xFE ∷ 0xFD ∷ 0x01 ∷ (packet.instance_key ++ (reply ++ 0 ∷ []))) m)
      ]

  -- `HandleHeartbeat`
  unfoldable pub handle_heartbeat : ℕ → Bytes → Endpoint → QrPacket → Master → Run Master
  unfolding heartbeat_of
  handle_heartbeat now random client packet m = elim (parse_heartbeat packet) [
    | err _ ↦ returned m
    | ok beat ↦ elim (find (codes "gamename") beat.server_data) [
      | none ↦ returned m
      | some gamename ↦ elim (find_game gamename m.games) [
        | none ↦ returned m
        | some game ↦ heartbeat_of now random client beat gamename game m
      ]
    ]
  ]

  -- The end of `HandleChallenge`, which an exception skips.
  abbrev pub erase_awaiting : Endpoint → Run Master → Run Master
  erase_awaiting client (threw m) = threw m
  erase_awaiting client (returned m) =
      returned (with_servers (erase_server client m.awaiting_validation) m.validated m)

  -- A challenge that is the proof that was kept.
  abbrev pub accept_server : Endpoint → Server → Master → Run Master
  accept_server client s m =
      update_game s.gamename (incoming_server s.last_update client s.values) (
        send_to client (0xFE ∷ 0xFD ∷ 0x0A ∷ s.instance_key)
          (with_servers m.awaiting_validation (emplace_server client s m.validated) m))

  -- `HandleChallenge`; the text is read up to a NUL, also behind the packet, where the bytes `behind`
  -- are left in the buffer. Where none of these is a NUL the source reads out of bounds, here it does
  -- nothing.
  unfoldable pub handle_challenge : Endpoint → QrPacket → Bytes → Master → Run Master
  unfolding update_game
  handle_challenge client packet behind m = elim (find_server client m.awaiting_validation) [
    | none ↦ returned m
    | some s ↦ elim (c_string (packet.content ++ behind)) [
      | none ↦ returned m
      | some text ↦
          erase_awaiting client
            (if equal s.proof text then accept_server client s m else returned m)
    ]
  ]

  -- One round of `AcceptConnections`: an exception is caught, and what was changed until then stays.
  unfoldable pub handle_packet : ℕ → Bytes → Endpoint → QrPacket → Bytes → Master → Master
  unfolding handle_heartbeat handle_challenge handle_available handle_keep_alive
  handle_packet now random client packet behind m = elim packet.type [
    | prequery_ip_verify ↦ handle_available client packet m
    | heartbeat ↦ after_run (handle_heartbeat now random client packet m)
    | keepalive ↦ handle_keep_alive now client m
    | challenge ↦ after_run (handle_challenge client packet behind m)
    | _ ↦ m
  ]

  -- `buffer` is what the buffer holds before the datagram.
  unfoldable pub receive : ℕ → Bytes → Endpoint → Bytes → Bytes → Master → Master
  unfolding handle_packet
  receive now random client bytes buffer m = elim (parse (received bytes)) [
    | err _ ↦ m
    | ok packet ↦ handle_packet now random client packet (drop (length (received bytes)) buffer) m
  ]
