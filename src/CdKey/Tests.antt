-- ===== src/CdKey/Tests.antt =====
-- A request for a CD key, and the theorem at it.
use gamespy_emulator.CdKey.{answer}
use gamespy_emulator.Prelude.{◌≡◌, refl, some, none, Bytes, codes}
use gamespy_emulator.Utils.KeyValue.{value_for_key, find_after, take_value}
use gamespy_emulator.Utils.Xor.{gs_xor, gamespy}

abbrev request : Bytes
request = codes "\\auth\\\\resp\\0123456789abcdef0123456789abcdef72\\skey\\5\\id\\1"

abbrev confirmation : Bytes
confirmation = codes "\\uok\\\\cd\\0123456789abcdef0123456789abcdef\\skey\\5"

request_confirmed : answer request ≡ some (gs_xor gamespy confirmation)
unfolding answer value_for_key find_after take_value
request_confirmed = refl

keep_alive_silent : answer (codes "\\ka\\") ≡ none
unfolding answer
keep_alive_silent = refl
