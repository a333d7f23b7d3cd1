-- ===== src/Browser/Tests.antt =====
-- Runs of the browser's server, and the theorems at such inputs.
use gamespy_emulator.Prelude.{
  Bytes, ◌≡◌, refl, arith, [], ◌∷◌, none, some, codes, equal, true, false, ℕ, List, Option,
}
use gamespy_emulator.Browser.Request.{
  ServerListRequest, extracted, failed, invalid_key, parse, extract_options, extract_uint32,
}
use gamespy_emulator.Browser.ExtractLaws.{write_request, uint32_bytes}
use gamespy_emulator.Browser.RequestLaws.{IsWritable, parse-write_request}
use gamespy_emulator.Sapphire.{hash_init}
use gamespy_emulator.Qr.{find}
use gamespy_emulator.Utils.Number.{from_chars, scan_digits}
use gamespy_emulator.Game.Data.{
  Game, ServerData, available, ignore, common_keys, get_param_send_type, after_run, server_added,
  server_removed,
}
use gamespy_emulator.Browser.Reader.{waiting, receive, read_frames}
use gamespy_emulator.Browser.ReaderLaws.{receive-append}
use gamespy_emulator.Browser.Response.{prepare_server, values_bytes, value_bytes}
use gamespy_emulator.Browser.Push.{
  Event, fired, update_taken, update_of, try_send, channel_after, process_events,
}
use gamespy_emulator.Browser.PushLaws.{IsUpdated, process_events-IsUpdated}
use gamespy_emulator.Browser.Session.{Client, answer}
use gamespy_emulator.Browser.SessionLaws.{Says, plain_answer, answer-Says}

abbrev request : ServerListRequest
request = record {
  protocol_version = 1;
  encoding_version = 3;
  from_game_version = 0;
  from_game = codes "battlefield2";
  to_game = codes "battlefield2";
  challenge = codes "abcdefgh";
  server_filter = codes "numplayers > 0";
  field_list = codes "hostname" ∷ codes "maxplayers" ∷ [];
  options = 128;
  alternate_source_ip = none;
  limit_result_count = some 20;
}

request-IsWritable : IsWritable request
request-IsWritable = record {
  protocol = refl;
  encoding = refl;
  version = omega arith;
  from_free = ground arith;
  to_free = ground arith;
  challenge_length = refl;
  filter_free = ground arith;
  filter_short = omega arith;
  fields_some = ground arith;
  fields_names = ground arith;
  fields_short = omega arith;
  options_small = omega arith;
  alternate = refl;
  limit = (refl, omega arith);
}

parse-write_request_example :
    parse (write_request request (codes "x")) ≡ extracted request (codes "x")
parse-write_request_example =
    parse-write_request request (codes "x") request-IsWritable (omega arith)

-- Two options at once are refused when their sum is above the largest one.
two_options_are_refused : extract_options (uint32_bytes 129) ≡ failed invalid_key
unfolding extract_options extract_uint32
two_options_are_refused = refl

-- A packet of five bytes that comes in two reads, with the start of another one.
receive-append_example :
    receive (receive (waiting [] []) (0 ∷ 5 ∷ [])) (3 ∷ 1 ∷ 2 ∷ 0 ∷ [])
    ≡ receive (waiting [] []) (0 ∷ 5 ∷ 3 ∷ 1 ∷ 2 ∷ 0 ∷ [])
receive-append_example = receive-append (waiting [] []) (0 ∷ 5 ∷ []) (3 ∷ 1 ∷ 2 ∷ 0 ∷ [])

two_reads :
    receive (receive (waiting [] []) (0 ∷ 5 ∷ [])) (3 ∷ 1 ∷ 2 ∷ 0 ∷ [])
    ≡ waiting (record { type = 3; content = 1 ∷ 2 ∷ [] } ∷ []) (0 ∷ [])
unfolding receive read_frames
two_reads = refl

abbrev game : Game
game = record {
  game_data = record {
    name = codes "gmtest";
    secret_key = codes "HA6zkS";
    query_port = 6500;
    availability = available;
    backend = 128;
    keys = common_keys;
    missing_key_policy = ignore;
  };
  params = common_keys;
  popular_values = codes "mine" ∷ codes "yours" ∷ [];
  sent = [];
  fired = [];
}

abbrev server : ServerData
server = record {
  last_update = 0;
  public_ip = codes "10.0.0.1";
  public_port = 29900;
  private_ip = [];
  private_port = 0;
  icmp_ip = [];
  values = (codes "hostname", codes "mine") ∷ (codes "maxplayers", codes "16") ∷ [];
  rules = [];
}

abbrev address : Bytes → Option Bytes
address ip = some (10 ∷ 0 ∷ 0 ∷ 1 ∷ [])

abbrev servers : Game → Bytes → List Bytes → ℕ → List ServerData
servers g query fields limit = server ∷ []

abbrev client : Client
client = record {
  is_open = true;
  cypher = some hash_init;
  game = some game;
  key_list = [];
  subscribed = false;
  sent = [];
}

-- The value that is first of two popular values is sent as 2.
server_bytes :
    prepare_server address game server (codes "hostname" ∷ codes "maxplayers" ∷ []) true
    ≡ some (0x51 ∷ 10 ∷ 0 ∷ 0 ∷ 1 ∷ 0x74 ∷ 0xCC ∷ 2 ∷ 16 ∷ [])
unfolding prepare_server values_bytes value_bytes get_param_send_type find equal from_chars
    scan_digits
server_bytes = refl

answer-Says_example :
    Says hash_init []
      (plain_answer address servers request game (127 ∷ 0 ∷ 0 ∷ 1 ∷ []))
      (after_run (answer address servers request game (127 ∷ 0 ∷ 0 ∷ 1 ∷ []) client))
answer-Says_example =
    answer-Says address servers request game (127 ∷ 0 ∷ 0 ∷ 1 ∷ []) client hash_init refl

abbrev subscriber : Client
subscriber = record client { key_list = codes "hostname" ∷ []; subscribed = true }

abbrev events : List Event
events =
    fired (server_added server)
    ∷ fired (server_removed (codes "10.0.0.1") 29900)
    ∷ update_taken
    ∷ update_taken
    ∷ []

-- The second update stays in the channel.
one_update_waits :
    (after_run
      (process_events address events (record { client = subscriber; channel = [] }))).channel
    ≡ (4 ∷ 0 ∷ 6 ∷ 10 ∷ 0 ∷ 0 ∷ 1 ∷ 0x74 ∷ 0xCC ∷ []) ∷ []
unfolding process_events channel_after update_of try_send prepare_server values_bytes value_bytes
    get_param_send_type find equal from_chars scan_digits
one_update_waits = refl

process_events-IsUpdated_example :
    IsUpdated subscriber
      (process_events address events (record { client = subscriber; channel = [] }))
process_events-IsUpdated_example =
    process_events-IsUpdated address events subscriber [] (omega arith)
