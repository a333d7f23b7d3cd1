-- ===== src/Browser/Session.antt =====
-- `BrowserClient` of emulator/ms.client.cpp: the key exchange and the answer to a list request. The
-- random texts are arguments; the query of the server table and the addresses are parameters.
use gamespy_emulator.Prelude.{
  ℕ, suc, ◌+◌, ◌*◌, ◌%◌, Bool, true, false, ◌||◌, Bytes, List, [], ◌∷◌, ◌++◌, Option, none, some,
  ltb, ◌==◌, if◌then◌else◌, length, bit_xor, get_or, set,
}
use gamespy_emulator.Sapphire.{Sapphire, initialize, encrypt_all}
use gamespy_emulator.Game.Database.{find_game}
use gamespy_emulator.Game.Data.{Game, ServerData, Run, returned, threw}
use gamespy_emulator.Browser.Options
use gamespy_emulator.Browser.Request.{extracted, failed, ServerListRequest, has_option, parse}
use gamespy_emulator.Browser.Response.{short_bytes, get_response_header_bytes, prepare_server}

-- The client, with whether its socket is open and what was sent to it so far, as it is on the wire.
pub record Client : Type 0 where
  pub is_open : Bool
  pub cypher : Option Sapphire
  pub game : Option Game
  pub key_list : List Bytes
  pub subscribed : Bool
  pub sent : List Bytes

-- `key[j % keySize]`
abbrev at_key : ℕ → Bytes → ℕ
at_key j key = get_or key (j % length key) 0

-- The loop that mixes the challenges and the game's secret key.
unfoldable pub mix_key : Bytes → ℕ → Bytes → Bytes → Bytes
mix_key secret_key i [] key = key
mix_key secret_key i (c ∷ challenge) key =
    let j = i * get_or secret_key (i % length secret_key) 0 in
    mix_key secret_key (suc i) challenge
      (set key (j % length key) (bit_xor (at_key j key) (bit_xor (at_key i key) c)))

-- What is sent in the clear before the cypher starts.
abbrev pub key_exchange : Game → Bytes → Bytes → Bytes
key_exchange game crypt_key server_challenge =
    bit_xor ((length crypt_key + 2) % 256) 0xEC
    ∷ (short_bytes game.game_data.backend
        ++ (crypt_key ++ (bit_xor (length server_challenge % 256) 0xEA ∷ server_challenge)))

-- `StartEncryption`
unfoldable pub start_encryption : Bytes → Bytes → Bytes → Game → Client → Client
unfolding mix_key
start_encryption crypt_key server_challenge client_challenge game client = elim client.cypher [
  | some s ↦ client
  | none ↦ record {
    is_open = client.is_open;
    cypher = initialize (mix_key game.game_data.secret_key 0 server_challenge client_challenge);
    game = client.game;
    key_list = client.key_list;
    subscribed = client.subscribed;
    sent = client.sent ++ key_exchange game crypt_key server_challenge ∷ [];
  }
]

-- `Send`, which is called with a cypher only.
unfoldable pub send : Bytes → Client → Client
send bytes client = elim client.cypher [
  | none ↦ client
  | some s ↦ record {
    is_open = client.is_open;
    cypher = some (encrypt_all s bytes).0;
    game = client.game;
    key_list = client.key_list;
    subscribed = client.subscribed;
    sent = client.sent ++ (encrypt_all s bytes).1 ∷ [];
  }
]

abbrev close : Client → Client
close client = record {
  is_open = false;
  cypher = client.cypher;
  game = client.game;
  key_list = client.key_list;
  subscribed = client.subscribed;
  sent = client.sent;
}

abbrev with_game : Game → Client → Client
with_game game client = record {
  is_open = client.is_open;
  cypher = client.cypher;
  game = some game;
  key_list = client.key_list;
  subscribed = client.subscribed;
  sent = client.sent;
}

-- The two signals are connected; `m_KeyList` holds the fields.
abbrev subscribe : List Bytes → Client → Client
subscribe fields client = record {
  is_open = client.is_open;
  cypher = client.cypher;
  game = client.game;
  key_list = client.key_list ++ fields;
  subscribed = true;
  sent = client.sent;
}

-- `std::min(limitResultCount.value_or(500), 500)`
abbrev pub result_limit : Option ℕ → ℕ
result_limit none = 500
result_limit (some n) = if ltb 500 n then 500 else n

module _ (make_address : Bytes → Option Bytes)
    (get_servers : Game → Bytes → List Bytes → ℕ → List ServerData) where
  -- The loop over the servers; it throws where `GetServerBytes` does.
  unfoldable pub send_servers : Game → List Bytes → List ServerData → Client → Run Client
  unfolding send
  send_servers game fields [] client = returned client
  send_servers game fields (s ∷ ss) client = elim (prepare_server make_address game s fields true) [
    | none ↦ threw client
    | some bytes ↦ send_servers game fields ss (send bytes client)
  ]

  -- What follows the servers.
  abbrev pub end_list : ServerListRequest → Run Client → Run Client
  end_list r (threw client) = threw client
  end_list r (returned client) =
      let ended = send (0x00 ∷ 0xFF ∷ 0xFF ∷ 0xFF ∷ 0xFF ∷ []) client in
      returned
        (if has_option r.options Options.push_updates then subscribe r.field_list ended else ended)

  -- The answer to a request for a game that is there.
  unfoldable pub answer : ServerListRequest → Game → Bytes → Client → Run Client
  unfolding send_servers
  answer r game socket_ip client =
      let headed = send (get_response_header_bytes r game socket_ip) client in
      if has_option r.options Options.no_server_list || game.game_data.query_port == 65535
      then returned headed
      else if has_option r.options Options.send_groups
      then returned headed
      else end_list r (
          send_servers game r.field_list
            (get_servers game r.server_filter r.field_list (result_limit r.limit_result_count))
            headed)

  -- `HandleServerListRequest`
  unfoldable pub handle_server_list_request :
      List Game → Bytes → Bytes → Bytes → Bytes → Client → Run Client
  unfolding answer start_encryption
  handle_server_list_request games socket_ip crypt_key server_challenge bytes client =
      elim (parse bytes) [
        | failed e ↦ returned (close client)
        | extracted r rest ↦ elim (find_game r.to_game games) [
          | none ↦ returned (close client)
          | some game ↦
              answer r game socket_ip (
                start_encryption crypt_key server_challenge r.challenge game
                  (with_game game client))
        ]
      ]
