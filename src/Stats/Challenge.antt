-- ===== src/Stats/Challenge.antt =====
-- `create_challenge`, `g_crc32` and the framing of emulator/stats.client.cpp. A signed number of 32
-- bits is the number of its bits.
use gamespy_emulator.Md5.{nibble}
use gamespy_emulator.Prelude.{
  ℕ, zero, suc, ◌+◌, ◌-◌, ◌*◌, ◌%◌, ◌^◌, ◌≡◌, refl, none, some, List, Bytes, [], ◌∷◌, ◌++◌, codes,
  if◌then◌else◌, ltb, length, take, drop, length-append, take-append_length, drop-append_length,
  arith,
}
use gamespy_emulator.Utils.Number.{decimal}
use gamespy_emulator.Utils.ReadUntil.{read_until}
use gamespy_emulator.Utils.Xor.{gs_xor, gs_xor_twice, game_spy_3d}

-- `std::format("{}", n)` of a signed number.
abbrev pub signed_decimal : ℕ → Bytes
signed_decimal n = if ltb n (2 ^ 31) then decimal n else b'-' ∷ decimal (2 ^ 32 - n)

-- The lowest `digits` hexadecimal digits.
abbrev pub hex_digits : ℕ → ℕ → Bytes
hex_digits zero n = []
hex_digits (suc d) n = nibble n (4 * d) ∷ hex_digits d n

-- `std::format("{:08x}", n)` of a signed number; the width counts the sign, and only the lowest
-- negative number needs eight digits behind it.
abbrev pub hex_8 : ℕ → Bytes
hex_8 n =
    if ltb n (2 ^ 31)
    then hex_digits 8 n
    else let magnitude = 2 ^ 32 - n in
      b'-' ∷ (if ltb magnitude (2 ^ 28) then hex_digits 7 magnitude else hex_digits 8 magnitude)

-- The loop over the characters, `i` counting.
abbrev pub shift_chars : ℕ → Bytes → Bytes
shift_chars i [] = []
shift_chars i (c ∷ cs) = (c + ((b'A' - b'0') + i)) ∷ shift_chars (i + 1) cs

-- `create_challenge`
unfoldable pub create_challenge : ℕ → Bytes
create_challenge challenge = shift_chars 0 (hex_8 challenge)

-- `CHALLENGEXOR`
abbrev pub challenge_xor : ℕ
challenge_xor = 0x38F371E6

-- A `char` is signed.
abbrev pub signed_char : ℕ → ℕ
signed_char c = if ltb c 128 then c else c + (2 ^ 32 - 256)

-- The loop of `g_crc32`; the multiplier is -1664117991.
unfoldable pub crc_from : ℕ → Bytes → ℕ
crc_from hash [] = hash
crc_from hash (c ∷ cs) = crc_from ((hash * (2 ^ 32 - 1664117991) + signed_char c) % 2 ^ 32) cs

-- `g_crc32`, as the hardware wraps it around.
unfoldable pub g_crc32 : Bytes → ℕ
g_crc32 str = crc_from 0 str

abbrev pub packet_end : Bytes
packet_end = codes "\\final\\"

-- What `packet_reader` does to a packet: all but its end is decoded in place.
unfoldable pub decode_packet : Bytes → Bytes
decode_packet packet =
    let size = length packet - length packet_end in
    gs_xor game_spy_3d (take size packet) ++ drop size packet

-- What `SendPacket` writes.
unfoldable pub frame : Bytes → Bytes
frame message = gs_xor game_spy_3d message ++ packet_end

-- `packet_reader`: the packets that it yields, of what is received; each has to end within the
-- largest size of the buffer. As many rounds as there are bytes are enough.
unfoldable pub read_from : ℕ → Bytes → List Bytes
unfolding decode_packet
read_from zero stream = []
read_from (suc fuel) stream = elim (read_until packet_end (512 * 1024) stream) [
  | none ↦ []
  | some cut ↦ decode_packet cut.packet ∷ read_from fuel cut.rest
]

unfoldable pub packet_reader : Bytes → List Bytes
unfolding read_from
packet_reader stream = read_from (length stream) stream

-- A packet that is written is read as the message with the end behind it.
pub decode_packet-frame : (message : Bytes) → decode_packet (frame message) ≡ message ++ packet_end
unfolding decode_packet frame
decode_packet-frame message =
    let coded = gs_xor game_spy_3d message in
    let size : length (coded ++ packet_end) - 7 ≡ length coded =
      omega (arith, length-append coded packet_end) in
    rw
      (
        size,
        take-append_length coded packet_end,
        drop-append_length coded packet_end,
        gs_xor_twice game_spy_3d message,
      )
      refl
