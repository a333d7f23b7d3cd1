-- ===== src/Qr/Base.antt =====
-- What the parsers of this protocol share: their errors, the packet, and results.
use gamespy_emulator.Prelude.{ℕ, Bool, Bytes, [], ◌∷◌, ltb, ◌==◌, if◌then◌else◌, not, true}

-- `QRPacket::ParseError`
pub data ParseError : Type 0 where
  too_small unexpected_end unknown_type : ParseError

-- `std::expected<…, ParseError>`
pub data Result {ℓ} (A : Type ℓ) : Type ℓ where
  ok : A → Result A
  err : ParseError → Result A

-- `QRPacket::Type`
pub data PacketType : Type 0 where
  query challenge echo heartbeat adderror echo_response client_message : PacketType
  client_message_ack keepalive prequery_ip_verify : PacketType

-- The value of an enumerator.
abbrev pub to_underlying : PacketType → ℕ
to_underlying query = 0x00
to_underlying challenge = 0x01
to_underlying echo = 0x02
to_underlying heartbeat = 0x03
to_underlying adderror = 0x04
to_underlying echo_response = 0x05
to_underlying client_message = 0x06
to_underlying client_message_ack = 0x07
to_underlying keepalive = 0x08
to_underlying prequery_ip_verify = 0x09

-- `static_cast<Type>`, for a value that is at most 0x09.
abbrev pub to_type : ℕ → PacketType
to_type n =
    if n == 0x00
    then query
    else if n == 0x01
    then challenge
    else if n == 0x02
    then echo
    else if n == 0x03
    then heartbeat
    else if n == 0x04
    then adderror
    else if n == 0x05
    then echo_response
    else if n == 0x06
    then client_message
    else if n == 0x07
    then client_message_ack
    else if n == 0x08
    then keepalive
    else prequery_ip_verify

pub record QrPacket : Type 0 where
  pub type : PacketType
  pub instance_key : Bytes
  pub content : Bytes

-- `data.empty() || data.back() == 0`
abbrev pub ends_in_nul : Bytes → Bool
ends_in_nul [] = true
ends_in_nul (c ∷ []) = c == 0
ends_in_nul (c ∷ d ∷ ds) = ends_in_nul (d ∷ ds)

-- `QRPacket::Parse`
unfoldable pub parse : Bytes → Result QrPacket
parse (t ∷ i₀ ∷ i₁ ∷ i₂ ∷ i₃ ∷ content) =
    if ltb 0x09 t
    then err unknown_type
    else if not (ends_in_nul content)
    then err unexpected_end
    else ok (record { type = to_type t; instance_key = i₀ ∷ i₁ ∷ i₂ ∷ i₃ ∷ []; content = content })
parse _ = err too_small
