-- ===== src/Utils/Tests.antt =====
-- Runs of the helpers, and the theorems at such inputs.
use gamespy_emulator.Prelude.{
  ◌≡◌, ◌↔◌, refl, arith, some, none, bit_xor, ◌<◌, ◌^◌, Bytes, codes, length, take,
}
use gamespy_emulator.Prelude.Int.{pos}
use gamespy_emulator.Utils.Date.{to_date, from_date, from_date-to_date}
use gamespy_emulator.Utils.KeyValue.{
  value_for_key, HasValue, value_for_key_iff, find_after, take_value,
}
use gamespy_emulator.Utils.Number.{parse_uint32, decimal, from_chars, scan_digits}
use gamespy_emulator.Utils.Numerals.{IsNumeral, parse_uint32_iff}
use gamespy_emulator.Utils.PlainBase64.{plain_base64}
use gamespy_emulator.Utils.Password.{
  passencode, passdecode, trim_right, gspassenc, passdecode-passencode,
}
use gamespy_emulator.Utils.Xor.{gamespy, gs_xor, at-gs_xor}
use gamespy_emulator.Prelude.Deck.{at}

abbrev login_packet : Bytes
login_packet = codes "\\login\\\\uniquenick\\ann\\port\\6500\\final\\"

value_of_uniquenick : value_for_key login_packet (codes "\\uniquenick\\") ≡ some (codes "ann")
unfolding value_for_key find_after take_value
value_of_uniquenick = refl

value_for_key_iff_example :
    (value_for_key login_packet (codes "\\uniquenick\\") ≡ some (codes "ann"))
    ↔ HasValue login_packet b'\\' (codes "uniquenick\\") (codes "ann")
value_for_key_iff_example =
    value_for_key_iff login_packet b'\\' (codes "uniquenick\\") (codes "ann")

at-gs_xor_example :
    (at (gs_xor gamespy login_packet) 9 ≡ bit_xor b'n' b'm')
    × (length (gs_xor gamespy login_packet) ≡ length login_packet)
at-gs_xor_example = at-gs_xor gamespy login_packet 9 (omega arith)

parse_uint32_iff_example :
    (parse_uint32 (codes "2900001") ≡ some 2900001)
    ↔ (IsNumeral (codes "2900001") 2900001 × (2900001 < 2 ^ 32))
parse_uint32_iff_example = parse_uint32_iff (codes "2900001") 2900001

-- Nothing may stand behind the number.
trailing_text : parse_uint32 (codes "12x") ≡ none
unfolding parse_uint32 from_chars scan_digits
trailing_text = refl

too_large : parse_uint32 (codes "4294967296") ≡ none
unfolding parse_uint32 from_chars scan_digits
too_large = refl

decimal_of : decimal 2900001 ≡ codes "2900001"
unfolding decimal
decimal_of = refl

from_date-to_date_example :
    from_date (to_date (record { year = pos 2014; month = 5; day = 31 }))
    ≡ record { year = pos 2014; month = 5; day = 31 }
from_date-to_date_example =
    from_date-to_date 2014 5 31
      (record { year_lt = omega arith; month_lt = omega arith; day_lt = omega arith })

passdecode-passencode_example :
    passdecode plain_base64 (passencode plain_base64 (codes "secret"))
    ≡ take (length (trim_right (gspassenc (codes "secret")))) (codes "secret")
passdecode-passencode_example = passdecode-passencode plain_base64 (codes "secret") (omega arith)
