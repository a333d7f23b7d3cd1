-- ===== src/Browser/Response.antt =====
-- `ServerListRequest::GetResponseHeaderBytes` and `PrepareServer` of emulator/sb_request.cpp.
-- `make_address` of Boost is a parameter: the four bytes of an address, or none where it throws.
use gamespy_emulator.Prelude.{
  ℕ, ◌/◌, ◌%◌, ◌^◌, Bool, true, false, ◌||◌, not, Bytes, List, [], ◌∷◌, ◌++◌, Option, none, some,
  ◌==◌, if◌then◌else◌, length, equal, codes, bit_or,
}
use gamespy_emulator.Utils.Number.{from_chars, whole}
use gamespy_emulator.Qr.{Map, find, is_empty}
use gamespy_emulator.Game.Data.{
  Game, ServerData, Send, as_string, as_byte, as_short, get_param_send_type,
}
use gamespy_emulator.Browser.Options
use gamespy_emulator.Browser.Request.{ServerListRequest, has_option}
use gamespy_emulator.Browser.ServerOptions

-- `{ n >> 8, n }` as two bytes.
abbrev pub short_bytes : ℕ → Bytes
short_bytes n = (n / 2 ^ 8 % 256) ∷ (n % 256) ∷ []

-- `std::to_underlying` of a `Send`.
abbrev pub send_byte : Send → ℕ
send_byte as_string = 0
send_byte as_byte = 1
send_byte as_short = 2

unfoldable pub header_fields : Game → List Bytes → Bytes
header_fields game [] = []
header_fields game (f ∷ fs) =
    send_byte (get_param_send_type game f) ∷ (f ++ (0 ∷ header_fields game fs))

unfoldable pub header_values : List Bytes → Bytes
header_values [] = []
header_values (v ∷ vs) = v ++ (0 ∷ header_values vs)

-- `GetResponseHeaderBytes`; `append_range` of a literal appends its own NUL as well.
unfoldable pub get_response_header_bytes : ServerListRequest → Game → Bytes → Bytes
unfolding header_fields header_values
get_response_header_bytes r game socket_ip =
    let port = game.game_data.query_port in
    let start =
      socket_ip
      ++ short_bytes port
      ++ (if port == 65535 then codes "Game does not support multiplayer!" ++ 0 ∷ 0 ∷ [] else []) in
    if has_option r.options Options.no_server_list || port == 65535
    then start
    else start
      ++ (length r.field_list % 256) ∷ header_fields game r.field_list
      ++ (length game.popular_values % 256) ∷ header_values game.popular_values

abbrev pub or_else {ℓ κ} : {A : Type ℓ} {B : Type κ} → Option A → (A → Option B) → Option B
or_else none f = none
or_else (some a) f = f a

-- The distance from the value to the end of the popular values, if it is one of them.
abbrev pub popular_distance : Bytes → List Bytes → Option ℕ
popular_distance v [] = none
popular_distance v (w ∷ ws) = if equal w v then some (length (w ∷ ws)) else popular_distance v ws

abbrev string_bytes : List Bytes → Bool → Bytes → Bytes
string_bytes popular true v = elim (popular_distance v popular) [
  | none ↦ 0xFF ∷ (v ++ 0 ∷ [])
  | some d ↦ (d % 256) ∷ []
]
string_bytes popular false v = 0xFF ∷ (v ++ 0 ∷ [])

-- One value as its key is sent, or none where the source throws.
unfoldable pub value_bytes : List Bytes → Bool → Send → Bytes → Option Bytes
value_bytes popular use_popular_list as_string v = some (string_bytes popular use_popular_list v)
value_bytes popular use_popular_list as_byte v =
    if is_empty v then some (0 ∷ []) else or_else (whole (from_chars 256 v)) (λ n. some (n ∷ []))
value_bytes popular use_popular_list as_short v =
    if is_empty v
    then some (0 ∷ 0 ∷ [])
    else or_else (whole (from_chars 65536 v)) (λ n. some (short_bytes n))

-- `data.contains(key) ? data.at(key) : T{}`
abbrev pub value_or_empty : Bytes → Map → Bytes
value_or_empty k m = elim (find k m) [ none ↦ [] | some v ↦ v ]

-- The loop over the fields.
unfoldable pub values_bytes : Game → Map → Bool → List Bytes → Option Bytes
unfolding value_bytes
values_bytes game entries use_popular_list [] = some []
values_bytes game entries use_popular_list (k ∷ ks) =
    or_else
      (value_bytes game.popular_values use_popular_list (get_param_send_type game k)
        (value_or_empty k entries))
      (λ b. or_else (values_bytes game entries use_popular_list ks) (λ bs. some (b ++ bs)))

-- The flags that a part sets, and the bytes it appends.
abbrev pub Part : Type 0
Part = ℕ × Bytes

abbrev pub port_part : Bool → ℕ → ℕ → Part
port_part false flag port = (0, [])
port_part true flag port = (flag, short_bytes port)

abbrev pub rules_part : Bytes → Part
rules_part [] = (0, [])
rules_part (c ∷ rules) = (ServerOptions.has_full_rules, (c ∷ rules) ++ 0 ∷ [])

abbrev pub natneg_flag : Map → ℕ
natneg_flag entries = elim (find (codes "natneg") entries) [
  | none ↦ 0
  | some v ↦ if equal v (codes "1") then ServerOptions.connect_negotiate else 0
]

module _ (make_address : Bytes → Option Bytes) where
  abbrev pub address_part : ℕ → Bytes → Option Part
  address_part flag [] = some (0, [])
  address_part flag (c ∷ ip) = or_else (make_address (c ∷ ip)) (λ a. some (flag, a))

  -- `PrepareServer`; the first byte gathers the flags of the parts.
  unfoldable pub prepare_server : Game → ServerData → List Bytes → Bool → Option Bytes
  unfolding values_bytes
  prepare_server game server field_list use_popular_list =
      or_else (make_address server.public_ip) (λ ip.
        or_else (address_part ServerOptions.private_ip server.private_ip) (λ private.
          or_else (address_part ServerOptions.icmp_ip server.icmp_ip) (λ icmp.
            or_else (values_bytes game server.values use_popular_list field_list) (λ values.
              let port =
                port_part (not (server.public_port == game.game_data.query_port))
                  ServerOptions.non_standard_port server.public_port in
              let private_port =
                port_part (not (server.private_port == 0)) ServerOptions.non_standard_private_port
                  server.private_port in
              let keys = if is_empty server.values then 0 else ServerOptions.has_keys in
              let rules = rules_part server.rules in
              let flags =
                bit_or
                  (bit_or
                    (bit_or
                      (bit_or
                        (bit_or (bit_or (bit_or ServerOptions.unsolicited_udp port.0) private.0)
                          private_port.0)
                        (natneg_flag server.values))
                      icmp.0)
                    keys)
                  rules.0 in
              some (
                flags
                ∷ (ip
                    ++ (port.1
                        ++ (private.1 ++ (private_port.1 ++ (icmp.1 ++ (values ++ rules.1)))))))))))
