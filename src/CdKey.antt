-- ===== src/CdKey.antt =====
-- emulator/key.cpp: the server of the CD keys, for one datagram.
use gamespy_emulator.Prelude.{
  ℕ, ◌≡◌, ◌≢◌, Bool, true, false, Option, none, some, Bytes, List, [], ◌∷◌, ◌++◌, codes,
  if◌then◌else◌, take, starts_with, Option-cases,
}
use gamespy_emulator.Utils.KeyValue.{value_for_key}
use gamespy_emulator.Utils.Xor.{gs_xor, gamespy}
mod Tests

-- The text of the reply.
abbrev pub ok_message : Bytes → Bytes → Bytes
ok_message challenge cd_key =
    codes "\\uok\\\\cd\\" ++ take 32 challenge ++ codes "\\skey\\" ++ cd_key

abbrev pub answer_auth : Option Bytes → Option Bytes → Option Bytes
answer_auth (some cd_key) (some challenge) = some (gs_xor gamespy (ok_message challenge cd_key))
answer_auth _ _ = none

-- The chain of tests of the decoded packet.
unfoldable pub answer : Bytes → Option Bytes
answer packet =
    if starts_with (codes "\\ka\\") packet
    then none
    else if starts_with (codes "\\disc\\") packet
    then none
    else if starts_with (codes "\\auth\\") packet
    then answer_auth (value_for_key packet (codes "\\skey\\"))
        (value_for_key packet (codes "\\resp\\"))
    else none

-- A datagram of the loop of `AcceptConnections`, and what is sent back.
unfoldable pub receive : Bytes → Option Bytes
receive [] = none
receive (c ∷ cs) = answer (gs_xor gamespy (c ∷ cs))

-- The packet is a request with a key and a challenge, and the reply, decoded, confirms them.
pub record Confirms (packet reply : Bytes) : Type 0 where
  pub is_auth : starts_with (codes "\\auth\\") packet ≡ true
  pub cd_key : Bytes
  pub keyed : value_for_key packet (codes "\\skey\\") ≡ some cd_key
  pub challenge : Bytes
  pub challenged : value_for_key packet (codes "\\resp\\") ≡ some challenge
  pub decoded : gs_xor gamespy reply ≡ ok_message challenge cd_key
