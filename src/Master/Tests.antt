-- ===== src/Master/Tests.antt =====
-- Runs of the master server, and the theorem at such a run.
use gamespy_emulator.Prelude.{◌≡◌, ◌⊎◌, refl, Bool, true, Bytes, List, [], ◌∷◌, codes, equal}
use gamespy_emulator.Qr.{parse}
use gamespy_emulator.Game.Data.{Statement}
use gamespy_emulator.Master.State.{
  Endpoint, Server, Master, find_server, has_server, emplace_server, hex_padded, hex_fuel,
}
use gamespy_emulator.Game.Database.{find_game}
use gamespy_emulator.Master.Handlers.{receive, handle_packet, handle_challenge, update_game}
use gamespy_emulator.Master.Loop.{Arrival, accept_connections}
use gamespy_emulator.Master.Proof.{ProvedIn, accept_connections-ProvedIn}

abbrev every : List Statement → Statement → Bool
every before s = true

abbrev as_it_is : Bytes → Bytes
as_it_is bytes = bytes

abbrev server_at : Endpoint
server_at = record { address = 0x0A000001; port = 29900 }

abbrev waiting : Server
waiting = record {
  last_update = 5;
  proof = codes "abcd";
  instance_key = 1 ∷ 2 ∷ 3 ∷ 4 ∷ [];
  gamename = codes "gone";
  values = [];
}

abbrev master : Master
master = record {
  awaiting_validation = (server_at, waiting) ∷ [];
  validated = [];
  games = [];
  sent = [];
}

abbrev answer : Arrival
answer = record {
  now = 9;
  random = codes "ABCDEFG";
  client = server_at;
  bytes = 1 ∷ 1 ∷ 2 ∷ 3 ∷ 4 ∷ b'a' ∷ b'b' ∷ b'c' ∷ b'd' ∷ 0 ∷ [];
}

accept_connections-ProvedIn_example :
    (has_server server_at [] ≡ true) ⊎ ProvedIn every as_it_is server_at (answer ∷ []) [] master
accept_connections-ProvedIn_example =
    accept_connections-ProvedIn every as_it_is (answer ∷ []) [] server_at master (
      unfold receive parse handle_packet handle_challenge find_server update_game find_game
        emplace_server has_server equal in
      refl)

-- When the update of the game throws, the server is validated and still awaits its validation.
in_both_maps :
    has_server server_at
      (accept_connections every as_it_is (answer ∷ []) [] master).awaiting_validation
    ≡ true
unfolding receive parse handle_packet handle_challenge find_server update_game find_game
    emplace_server has_server equal
in_both_maps = refl

-- Five bytes are read on into the buffer: the proof that an earlier datagram, even one of another
-- client with an unknown type, left there validates the server.
abbrev left_behind : Arrival
left_behind = record {
  now = 8;
  random = [];
  client = record { address = 0x0A000002; port = 1 };
  bytes = 10 ∷ 0 ∷ 0 ∷ 0 ∷ 0 ∷ b'a' ∷ b'b' ∷ b'c' ∷ b'd' ∷ 0 ∷ [];
}

abbrev short_answer : Arrival
short_answer = record { now = 9; random = []; client = server_at; bytes = 1 ∷ 1 ∷ 2 ∷ 3 ∷ 4 ∷ [] }

proved_by_the_buffer :
    has_server server_at
      (accept_connections every as_it_is (left_behind ∷ short_answer ∷ []) [] master).validated
    ≡ true
unfolding receive parse handle_packet handle_challenge find_server update_game find_game
    emplace_server has_server equal
proved_by_the_buffer = refl

-- An empty datagram ends the loop: what arrives behind it is not read.
stopped_by_an_empty_datagram :
    accept_connections every as_it_is (record answer { bytes = [] } ∷ answer ∷ []) [] master
    ≡ master
stopped_by_an_empty_datagram = refl

padded : hex_padded 8 0x0A000001 ≡ codes " A000001"
unfolding hex_fuel
padded = refl
