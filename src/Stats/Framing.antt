-- ===== src/Stats/Framing.antt =====
-- `SendPacket` and `packet_reader` of emulator/stats.client.cpp: a stream of packets is cut as it was
-- written.
use gamespy_emulator.Game.Identifiers.{All}
use gamespy_emulator.Prelude.{
  ℕ, zero, suc, ◌*◌, ◌≤◌, ◌≡◌, refl, ap, none, some, List, Bytes, [], ◌∷◌, ◌++◌, codes, length,
  length-append, map, arith,
}
use gamespy_emulator.Stats.Challenge.{
  packet_end, frame, decode_packet-frame, read_from, packet_reader,
}
use gamespy_emulator.Utils.KeyValue.{find_after}
use gamespy_emulator.Utils.ReadUntil.{read_until, read_until-append}
use gamespy_emulator.Utils.Xor.{gs_xor, game_spy_3d}

-- The end of a packet stands nowhere in the encoded message, nor begins in it; and the packet fits
-- into the buffer.
pub record IsSendable (message : Bytes) : Type 0 where
  pub delimited : find_after packet_end (gs_xor game_spy_3d message ++ codes "\\final") ≡ none
  pub fits : length (frame message) ≤ 512 * 1024

-- The packets of the messages, one behind the other.
abbrev pub frames : List Bytes → Bytes
frames [] = []
frames (m ∷ ms) = frame m ++ frames ms

read_until-frame :
    (message more : Bytes)
    → IsSendable message
    → read_until packet_end (512 * 1024) (frame message ++ more)
      ≡ some (record { packet = frame message; rest = more })
unfolding frame
read_until-frame message more h =
    read_until-append (codes "\\final") b'\\' (512 * 1024) (gs_xor game_spy_3d message) more
      h.delimited h.fits

read_from-frames :
    (fuel : ℕ) (messages : List Bytes)
    → length messages ≤ fuel
    → All IsSendable messages
    → read_from fuel (frames messages) ≡ map (λ m. m ++ packet_end) messages
unfolding read_from read_until find_after
read_from-frames zero [] h all = refl
read_from-frames zero (m ∷ ms) h all = absurd (omega arith)
read_from-frames (suc fuel) [] h all = refl
read_from-frames (suc fuel) (m ∷ ms) h all =
    rw (read_until-frame m (frames ms) all.0, decode_packet-frame m, read_from)
      (ap (λ x. (m ++ packet_end) ∷ x) (read_from-frames fuel ms (omega arith) all.1))

length-frames : (messages : List Bytes) → length messages ≤ length (frames messages)
unfolding frame
length-frames [] = omega arith
length-frames (m ∷ ms) = omega (
  arith,
  length-frames ms,
  length-append (frame m) (frames ms),
  length-append (gs_xor game_spy_3d m) packet_end,
)

-- The packets that are written of a list of messages, in whose encodings the end of a packet neither
-- stands nor begins, and which fit into the buffer, are read as these messages, in order, each with
-- the end behind it.
pub packet_reader-frames :
    (messages : List Bytes)
    → All IsSendable messages
    → packet_reader (frames messages) ≡ map (λ m. m ++ packet_end) messages
unfolding packet_reader
packet_reader-frames messages h =
    read_from-frames (length (frames messages)) messages (length-frames messages) h
