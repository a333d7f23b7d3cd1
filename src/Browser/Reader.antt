-- ===== src/Browser/Reader.antt =====
-- `packet_reader` of emulator/ms.client.cpp: the packets in the bytes received so far.
use gamespy_emulator.Prelude.{
  ℕ, zero, suc, ◌*◌, ◌^◌, Bytes, List, [], ◌∷◌, ◌++◌, ltb, if◌then◌else◌, length, take, drop,
  bit_or,
}

-- `ServerBrowsingPacket`; the type is the value of the enumerator.
pub record Packet : Type 0 where
  pub type : ℕ
  pub content : Bytes

-- What the inner loop yields, and the bytes it keeps; or that the coroutine returned.
pub data Frames : Type 0 where
  closed : List Packet → Frames
  waiting : List Packet → Bytes → Frames

abbrev pub add_packet : Packet → Frames → Frames
add_packet p (closed ps) = closed (p ∷ ps)
add_packet p (waiting ps bytes) = waiting (p ∷ ps) bytes

abbrev pub add_packets : List Packet → Frames → Frames
add_packets [] r = r
add_packets (p ∷ ps) r = add_packet p (add_packets ps r)

-- The checks of one round: `next` follows a packet.
abbrev pub frame_step : Bytes → ℕ → ℕ → Frames → Frames
frame_step bytes packet_length type next =
    if ltb packet_length 3
    then closed []
    else if ltb 4096 packet_length
    then closed []
    else if ltb (length bytes) packet_length
    then waiting [] bytes
    else if ltb 5 type
    then closed []
    else add_packet (record { type = type; content = drop 3 (take packet_length bytes) }) next

-- The inner loop, with fuel: a packet has three bytes at least.
unfoldable pub read_frames : ℕ → Bytes → Frames
read_frames zero bytes = waiting [] bytes
read_frames (suc fuel) (b₀ ∷ b₁ ∷ b₂ ∷ bytes) =
    let n = bit_or (b₀ * 2 ^ 8) b₁ in
    frame_step (b₀ ∷ b₁ ∷ b₂ ∷ bytes) n b₂ (read_frames fuel (drop n (b₀ ∷ b₁ ∷ b₂ ∷ bytes)))
read_frames (suc fuel) bytes = waiting [] bytes

-- A read behind the bytes that are kept; the space left in the buffer bounds what is read.
unfoldable pub receive : Frames → Bytes → Frames
unfolding read_frames
receive (closed ps) chunk = closed ps
receive (waiting ps bytes) chunk =
    add_packets ps (read_frames (length (bytes ++ chunk)) (bytes ++ chunk))
