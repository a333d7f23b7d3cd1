-- ===== src/Utils/Number.antt =====
-- Decimal numbers on the wire: `std::from_chars` and `utils::parse_uint32`, and what `std::format`
-- writes for an unsigned number.
use gamespy_emulator.Prelude.{
  ℕ, zero, suc, ◌+◌, ◌-◌, ◌*◌, ◌/◌, ◌%◌, ◌^◌, ◌<◌, ◌≡◌, refl, true, Option, none, some, Bytes, [],
  ◌∷◌, ◌++◌, is_digit, ltb, lt→ltb, if◌then◌else◌,
}

-- The value of the leading digits, and what stands behind them.
unfoldable pub scan_digits : ℕ → Bytes → ℕ × Bytes
scan_digits acc [] = (acc, [])
scan_digits acc (c ∷ cs) =
    if is_digit c then scan_digits (acc * 10 + (c - b'0')) cs else (acc, c ∷ cs)

-- The outcome of `std::from_chars`; the bytes left are those from `ptr` on.
pub data FromChars : Type 0 where
  invalid_argument out_of_range : FromChars
  parsed : ℕ → Bytes → FromChars

-- `std::from_chars` into an unsigned type with values below `bound`.
unfoldable pub from_chars : ℕ → Bytes → FromChars
unfolding scan_digits
from_chars bound [] = invalid_argument
from_chars bound (c ∷ cs) =
    let (value, rest) = scan_digits 0 (c ∷ cs) in
    if is_digit c
    then if ltb value bound then parsed value rest else out_of_range
    else invalid_argument

-- `ec != std::errc{} || ptr != end`
abbrev pub whole : FromChars → Option ℕ
whole (parsed value []) = some value
whole _ = none

-- `parse_uint32`
unfoldable pub parse_uint32 : Bytes → Option ℕ
unfolding from_chars
parse_uint32 str = whole (from_chars (2 ^ 32) str)

unfoldable pub decimal_fuel : ℕ → ℕ → Bytes
decimal_fuel zero n = []
decimal_fuel (suc f) n =
    let high = decimal_fuel f (n / 10) in
    if ltb n 10 then (b'0' + n) ∷ [] else high ++ (b'0' + n % 10) ∷ []

-- `std::format("{}", n)`. A number has fewer digits than its value and one.
unfoldable pub decimal : ℕ → Bytes
unfolding decimal_fuel
decimal n = decimal_fuel (suc n) n

pub scan_digits-nil : (n : ℕ) → scan_digits n [] ≡ (n, [])
unfolding scan_digits
scan_digits-nil n = refl

pub parse_uint32-cons :
    (c n : ℕ) (cs : Bytes)
    → is_digit c ≡ true
    → scan_digits 0 (c ∷ cs) ≡ (n, [])
    → n < 2 ^ 32
    → whole (from_chars (2 ^ 32) (c ∷ cs)) ≡ some n
unfolding from_chars
parse_uint32-cons c n cs d e h = rw (e, d, lt→ltb n (2 ^ 32) h)
