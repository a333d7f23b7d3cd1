-- ===== src/Qr/HeartbeatLaws.antt =====
-- A heartbeat packet as a game server writes it, and its parser.
use mathlib.Core.List.{append-nil}
use gamespy_emulator.Prelude.{ℕ, ◌≡◌, refl, sym, ap, ◌∙◌, Bytes, [], ◌∷◌, ◌++◌, true}
use gamespy_emulator.Qr.Base.{heartbeat, QrPacket, ok, ends_in_nul, parse}
use gamespy_emulator.Qr.Heartbeat.{QrHeartbeatPacket, parse_heartbeat, parse_tables}
use gamespy_emulator.Qr.MapParser.{Map, parse_map}
use gamespy_emulator.Qr.MapLaws.{write_map, IsWritable, parse_map-write_map}
use gamespy_emulator.Qr.TableParser.{parse_table}

ends_in_nul-append :
    (s : Bytes) (b : ℕ) (bs : Bytes)
    → ends_in_nul (b ∷ bs) ≡ true
    → ends_in_nul (s ++ (b ∷ bs)) ≡ true
ends_in_nul-append [] b bs h = h
ends_in_nul-append (c ∷ []) b bs h = h
ends_in_nul-append (c ∷ d ∷ s) b bs h = ends_in_nul-append (d ∷ s) b bs h

ends_in_nul-write_map : (m : Map) → ends_in_nul (write_map m) ≡ true
ends_in_nul-write_map [] = refl
ends_in_nul-write_map ((k, v) ∷ m) =
    ends_in_nul-append k 0 (v ++ (0 ∷ write_map m)) (
      ends_in_nul-append (0 ∷ v) 0 (write_map m)
        (nul_first (write_map m) (ends_in_nul-write_map m)))
  where
    nul_first : (s : Bytes) → ends_in_nul s ≡ true → ends_in_nul (0 ∷ s) ≡ true
    nul_first [] h = refl
    nul_first (c ∷ s) h = h

-- The packet that a server sends with the values `m` and nothing behind them.
abbrev pub heartbeat_bytes : ℕ → ℕ → ℕ → ℕ → Map → Bytes
heartbeat_bytes i₀ i₁ i₂ i₃ m = 0x03 ∷ i₀ ∷ i₁ ∷ i₂ ∷ i₃ ∷ write_map m

abbrev pub heartbeat_packet : ℕ → ℕ → ℕ → ℕ → Map → QrPacket
heartbeat_packet i₀ i₁ i₂ i₃ m = record {
  type = heartbeat;
  instance_key = i₀ ∷ i₁ ∷ i₂ ∷ i₃ ∷ [];
  content = write_map m;
}

abbrev pub plain_heartbeat : ℕ → ℕ → ℕ → ℕ → Map → QrHeartbeatPacket
plain_heartbeat i₀ i₁ i₂ i₃ m = record {
  type = heartbeat;
  instance_key = i₀ ∷ i₁ ∷ i₂ ∷ i₃ ∷ [];
  server_data = m;
  player_keys = [];
  player_values = [];
  team_keys = [];
  team_values = [];
}

-- A heartbeat with server values and no tables passes both parsers: its type and instance key are
-- those sent, and its values are the ones written, with no player and no team.
pub parse_heartbeat-write_map :
    (i₀ i₁ i₂ i₃ : ℕ) (m : Map)
    → IsWritable [] m
    → (parse (heartbeat_bytes i₀ i₁ i₂ i₃ m) ≡ ok (heartbeat_packet i₀ i₁ i₂ i₃ m))
      × (parse_heartbeat (heartbeat_packet i₀ i₁ i₂ i₃ m) ≡ ok (plain_heartbeat i₀ i₁ i₂ i₃ m))
unfolding parse parse_heartbeat parse_tables parse_table
parse_heartbeat-write_map i₀ i₁ i₂ i₃ m h =
    let read : parse_map (write_map m) ≡ ok (m, []) =
      ap parse_map (sym (append-nil (write_map m))) ∙ parse_map-write_map m [] h in
    (rw (ends_in_nul-write_map m) refl, rw (read, parse_heartbeat) refl)
