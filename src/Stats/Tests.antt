-- ===== src/Stats/Tests.antt =====
-- A session of a game server on a small database, and the theorems at such inputs.
use gamespy_emulator.Game.Data.{Game, common_keys, available, ignore}
use gamespy_emulator.Md5.{md5}
use gamespy_emulator.Players.Table.{Table, sqlite, row_by_id}
use gamespy_emulator.Players.{PlayerData}
use gamespy_emulator.Prelude.{◌≡◌, ◌⊎◌, refl, true, List, Bytes, [], ◌∷◌, ◌++◌, codes, equal, arith}
use gamespy_emulator.Stats.Auth.{IsGenuine}
use gamespy_emulator.Stats.Challenge.{
  create_challenge, g_crc32, crc_from, decode_packet, frame, packet_end, read_from, packet_reader,
}
use gamespy_emulator.Stats.Client.{
  Client, connected, process, rest_of, handle_packets, challenge, send_packet, check_auth,
  check_response, hande_snapshot, handle_updgame, handle_packet, authenticate_player, handle_authp,
}
use gamespy_emulator.Game.Database.{find_game}
use gamespy_emulator.Stats.Framing.{IsSendable, frames, packet_reader-frames}
use gamespy_emulator.Utils.ReadUntil.{read_until}
use gamespy_emulator.Utils.Xor.{gs_xor, game_spy_3d}
use gamespy_emulator.Utils.KeyValue.{value_for_key, find_after, take_value, value_for_key_uint32}
use gamespy_emulator.Utils.Number.{decimal, decimal_fuel, parse_uint32, from_chars, scan_digits}
use gamespy_emulator.Stats.Players.{Replies, handle_packets-Replies}
use gamespy_emulator.Stats.Uploads.{uploads, process-IsTrusted}

abbrev ann : PlayerData
ann = record {
  id = 2900001;
  name = codes "ann";
  email = codes "a@b.c";
  password = codes "5f4dcc3b5aa765d61d8327deb882cf99";
  country = codes "DE";
  session = 0;
}

abbrev accounts : Table
accounts = record { rows = ann ∷ []; sequence = 2900001 }

abbrev gmtest : Game
gmtest = record {
  game_data = record {
    name = codes "gmtest";
    secret_key = codes "HA6zkS";
    query_port = 6500;
    availability = available;
    backend = 128;
    keys = common_keys;
    missing_key_policy = ignore;
  };
  params = [];
  popular_values = [];
  sent = [];
  fired = [];
}

crc_of_challenge : g_crc32 (codes "ABCDEFGHIJ") ≡ 884373935
unfolding g_crc32 crc_from
crc_of_challenge = refl

challenge_of_key : create_challenge 0 ≡ codes "ABCDEFGH"
unfolding create_challenge
challenge_of_key = refl

abbrev packets : List Bytes
packets =
    (codes "\\auth\\\\gamename\\gmtest\\response\\"
      ++ codes "c47eb4179f6a6d9c130e418f5330f1b2\\port\\0\\id\\1\\final\\")
    ∷ (codes "\\updgame\\\\sesskey\\1\\done\\1\\gamedata\\" ++ codes "{}\\final\\")
    ∷ []

session_uploads :
    (process sqlite true
      (gmtest ∷ [])
      (codes "ABCDEFGHIJ")
      1700000000
      accounts
      packets
      connected).snapshots
    ≡ codes "{}" ∷ []
unfolding process challenge send_packet check_auth check_response hande_snapshot handle_updgame
    handle_packet handle_packets g_crc32 crc_from decimal decimal_fuel md5 equal find_game
    value_for_key find_after take_value
session_uploads = refl

process-IsTrusted_example :
    ((process sqlite true
        (gmtest ∷ [])
        (codes "ABCDEFGHIJ")
        1700000000
        accounts
        packets
        connected).snapshots
      ≡ [])
    ⊎ (IsGenuine (gmtest ∷ []) (codes "ABCDEFGHIJ") packets
        × ((process sqlite true
              (gmtest ∷ [])
              (codes "ABCDEFGHIJ")
              1700000000
              accounts
              packets
              connected).snapshots
            ≡ uploads (rest_of packets)))
process-IsTrusted_example =
    process-IsTrusted sqlite (gmtest ∷ []) (codes "ABCDEFGHIJ") 1700000000 accounts packets

-- A client behind the authentication.
abbrev ready : Client
ready = record {
  server_challenge = codes "ABCDEFGHIJ";
  session_key = 1700000000;
  sent = [];
  snapshots = [];
}

abbrev logins : List Bytes
logins =
    (codes "\\authp\\\\pid\\2900001\\resp\\"
      ++ codes "bde850cb43dc018b966ba5d4ac38b44b\\lid\\4\\final\\")
    ∷ codes "\\authp\\\\pid\\2900001\\resp\\0\\lid\\5\\final\\"
    ∷ codes "\\getpd\\\\pid\\2900001\\final\\"
    ∷ []

one_accepted :
    (handle_packets sqlite true accounts logins ready).sent
    ≡ frame (codes "\\pauthr\\2900001\\lid\\4") ∷ frame (codes "\\pauthr\\-1\\lid\\5") ∷ []
unfolding send_packet authenticate_player handle_authp handle_packet handle_packets create_challenge
    decimal decimal_fuel md5 equal value_for_key find_after take_value value_for_key_uint32
    parse_uint32 row_by_id from_chars scan_digits
one_accepted = refl

handle_packets-Replies_example :
    (ms : List Bytes) × ((handle_packets sqlite true accounts logins ready).sent ≡ [] ++ ms)
    × Replies sqlite accounts 1700000000 logins ms
handle_packets-Replies_example = handle_packets-Replies sqlite true accounts logins ready

abbrev messages : List Bytes
messages = codes "\\lc\\1" ∷ codes "\\pauthr\\-1\\lid\\5" ∷ []

short-IsSendable : IsSendable (codes "\\lc\\1")
unfolding find_after gs_xor frame
short-IsSendable = record { delimited = refl; fits = omega arith }

long-IsSendable : IsSendable (codes "\\pauthr\\-1\\lid\\5")
unfolding find_after gs_xor frame
long-IsSendable = record { delimited = refl; fits = omega arith }

packet_reader-frames_example :
    packet_reader (frames messages)
    ≡ (codes "\\lc\\1" ++ packet_end) ∷ (codes "\\pauthr\\-1\\lid\\5" ++ packet_end) ∷ []
packet_reader-frames_example =
    packet_reader-frames messages (short-IsSendable, (long-IsSendable, tt))

-- An encoded message in which the end of a packet stands is cut there.
cut_short :
    packet_reader (frame (gs_xor game_spy_3d (codes "a\\final\\b")))
    ≡ (gs_xor game_spy_3d (codes "a") ++ packet_end)
      ∷ (gs_xor game_spy_3d (codes "b") ++ packet_end)
      ∷ []
unfolding packet_reader read_from read_until decode_packet frame gs_xor find_after
cut_short = refl
