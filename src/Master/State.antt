-- ===== src/Master/State.antt =====
-- The state of `MasterServer`, and what its handlers write.
use gamespy_emulator.Prelude.{
  ℕ, zero, suc, ◌+◌, ◌-◌, ◌/◌, ◌%◌, ◌^◌, Bool, true, false, ◌&&◌, Bytes, List, [], ◌∷◌, ◌++◌,
  Option, none, some, ltb, ◌==◌, if◌then◌else◌, length, replicate,
}
use gamespy_emulator.Qr.{Map}
use gamespy_emulator.Utils.Number.{decimal}
use gamespy_emulator.Game.Data.{Game}

-- `udp::endpoint`, with an address of IPv4 as its value.
pub record Endpoint : Type 0 where
  pub address : ℕ
  pub port : ℕ

abbrev pub same_endpoint : Endpoint → Endpoint → Bool
same_endpoint a b = a.address == b.address && a.port == b.port

pub record Server : Type 0 where
  pub last_update : ℕ
  pub proof : Bytes
  pub instance_key : Bytes
  pub gamename : Bytes
  pub values : Map

-- `std::map<udp::endpoint, server>`, without its order.
abbrev pub Servers : Type 0
Servers = List (Endpoint × Server)

unfoldable pub find_server : Endpoint → Servers → Option Server
find_server e [] = none
find_server e ((d, s) ∷ m) = if same_endpoint d e then some s else find_server e m

-- `contains`
unfoldable pub has_server : Endpoint → Servers → Bool
has_server e [] = false
has_server e ((d, s) ∷ m) = if same_endpoint d e then true else has_server e m

-- `emplace`: an entry that is there stays.
unfoldable pub emplace_server : Endpoint → Server → Servers → Servers
unfolding has_server
emplace_server e s m = if has_server e m then m else m ++ (e, s) ∷ []

-- A change of the entry of `e`.
unfoldable pub change_server : (Server → Server) → Endpoint → Servers → Servers
change_server f e [] = []
change_server f e ((d, s) ∷ m) = (d, if same_endpoint d e then f s else s) ∷ change_server f e m

unfoldable pub erase_server : Endpoint → Servers → Servers
erase_server e [] = []
erase_server e ((d, s) ∷ m) =
    if same_endpoint d e then erase_server e m else (d, s) ∷ erase_server e m

-- `MasterServer`, with the games of its `GameDB` and what was sent so far.
pub record Master : Type 0 where
  pub awaiting_validation : Servers
  pub validated : Servers
  pub games : List Game
  pub sent : List (Endpoint × Bytes)

-- `address_v4::to_string`
abbrev pub address_text : ℕ → Bytes
address_text a =
    decimal (a / 2 ^ 24)
    ++ (b'.'
        ∷ (decimal (a / 2 ^ 16 % 256)
            ++ (b'.' ∷ (decimal (a / 2 ^ 8 % 256) ++ (b'.' ∷ decimal (a % 256))))))

abbrev pub hex_digit : ℕ → ℕ
hex_digit d = if ltb d 10 then b'0' + d else b'A' + (d - 10)

-- `{:X}`; a number has fewer digits than its value and one.
unfoldable pub hex_fuel : ℕ → ℕ → Bytes
hex_fuel zero n = []
hex_fuel (suc f) n =
    let high = hex_fuel f (n / 16) in
    if ltb n 16 then hex_digit n ∷ [] else high ++ hex_digit (n % 16) ∷ []

-- `{:wX}` pads a number with spaces on the left. Nine digits are enough for 32 bits.
abbrev pub hex_padded : ℕ → ℕ → Bytes
hex_padded w n = replicate (w - length (hex_fuel 9 n)) b' ' ++ hex_fuel 9 n

-- The text that a server has to encode.
abbrev pub response_data : Bytes → ℕ → Endpoint → Bytes
response_data challenge backend client =
    challenge ++ (hex_padded 2 backend ++ (hex_padded 8 client.address ++ hex_padded 4 client.port))

-- The bytes before the first NUL, which a `std::string` of a pointer holds; none if there is no
-- NUL, where the source reads behind the packet.
abbrev pub c_string : Bytes → Option Bytes
c_string [] = none
c_string (c ∷ cs) =
    let rest = c_string cs in
    if c == 0 then some [] else elim rest [ none ↦ none | some s ↦ some (c ∷ s) ]

-- The bytes without the last one; none if there is none, where the length wraps around.
abbrev pub drop_last : Bytes → Option Bytes
drop_last [] = none
drop_last (c ∷ []) = some []
drop_last (c ∷ d ∷ cs) = elim (drop_last (d ∷ cs)) [ none ↦ none | some s ↦ some (c ∷ s) ]
