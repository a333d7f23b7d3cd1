-- ===== src/Utils/Date.antt =====
-- `utils::to_date` and `utils::from_date`: a calendar date in a 32-bit word. The step between a
-- time point and its calendar date is that of <chrono>; the functions here begin and end at the
-- `year_month_day`.
use gamespy_emulator.Prelude.{ℕ, ◌+◌, ◌*◌, ◌/◌, ◌%◌, ◌^◌, ◌<◌, ◌≡◌, ap, ◌∙◌, arith, bit_and, bit_or}
use gamespy_emulator.Prelude.Int.{ℤ, pos, negsuc}
use gamespy_emulator.Prelude.Masks.{bit_or_shifted, bit_and_mask, bit_and_shifted}

-- `std::chrono::year_month_day`; `year` is an `int`, the other two are small and unsigned.
pub record YearMonthDay : Type 0 where
  pub year : ℤ
  pub month : ℕ
  pub day : ℕ

-- A year before 0 is taken for that of GameSpy's end. The cast keeps the low 16 bits.
abbrev pub year_bits : ℤ → ℕ
year_bits (pos y) = y % 2 ^ 16
year_bits (negsuc _) = 2014

-- `to_date`, from the calendar date of the time point on.
unfoldable pub to_date : YearMonthDay → ℕ
to_date ymd =
    bit_or (bit_or (ymd.day * 2 ^ 24 % 2 ^ 32) (ymd.month * 2 ^ 16 % 2 ^ 32)) (year_bits ymd.year)

-- `from_date`, up to the calendar date.
unfoldable pub from_date : ℕ → YearMonthDay
from_date gs_date = record {
  year = pos (bit_and gs_date 0xFFFF);
  month = bit_and gs_date 0xFF0000 / 2 ^ 16;
  day = bit_and gs_date 0xFF000000 / 2 ^ 24;
}

-- A date of the common era whose fields fit.
pub record Fits (y m d : ℕ) : Type 0 where
  pub year_lt : y < 2 ^ 16
  pub month_lt : m < 256
  pub day_lt : d < 256

to_date-sum :
    (y m d : ℕ)
    → Fits y m d
    → to_date (record { year = pos y; month = m; day = d }) ≡ d * 2 ^ 24 + m * 2 ^ 16 + y
unfolding to_date
to_date-sum y m d f =
    let high : bit_or (d * 2 ^ 24 % 2 ^ 32) (m * 2 ^ 16 % 2 ^ 32) ≡ (d * 256 + m) * 2 ^ 16 =
      ap (λ (t : ℕ). bit_or t (m * 2 ^ 16 % 2 ^ 32)) (omega (arith, f.day_lt))
      ∙ ap (bit_or (d * 2 ^ 24)) (omega (arith, f.month_lt))
      ∙ bit_or_shifted 24 d (m * 2 ^ 16) (omega (arith, f.month_lt))
      ∙ omega arith in
    ap (λ (t : ℕ). bit_or t (y % 2 ^ 16)) high
    ∙ ap (bit_or ((d * 256 + m) * 2 ^ 16)) (omega (arith, f.year_lt))
    ∙ bit_or_shifted 16 (d * 256 + m) y f.year_lt
    ∙ omega arith

from_date_lem :
    (g : ℕ)
    → from_date g
      ≡ record { year = pos (g % 2 ^ 16); month = g / 2 ^ 16 % 2 ^ 8; day = g / 2 ^ 24 % 2 ^ 8 }
unfolding from_date
from_date_lem g = λ i. record {
  year = pos (bit_and_mask 16 g i);
  month = (bit_and_shifted 16 g 255 ∙ bit_and_mask 8 (g / 2 ^ 16)) i;
  day = (bit_and_shifted 24 g 255 ∙ bit_and_mask 8 (g / 2 ^ 24)) i;
}

-- Every date of the common era whose year fits 16 bits and whose month and day fit a byte is read
-- back from its word.
pub from_date-to_date :
    (y m d : ℕ)
    → Fits y m d
    → from_date (to_date (record { year = pos y; month = m; day = d }))
      ≡ record { year = pos y; month = m; day = d }
from_date-to_date y m d f =
    let g = to_date (record { year = pos y; month = m; day = d }) in
    from_date_lem g ∙ λ i. record {
      year = pos (omega_year i);
      month = omega_month i;
      day = omega_day i;
    }
  where
    g' : ℕ
    g' = to_date (record { year = pos y; month = m; day = d })

    omega_year : g' % 2 ^ 16 ≡ y
    omega_year = omega (arith, to_date-sum y m d f, f.year_lt)

    omega_month : g' / 2 ^ 16 % 2 ^ 8 ≡ m
    omega_month = omega (arith, to_date-sum y m d f, f.year_lt, f.month_lt)

    omega_day : g' / 2 ^ 24 % 2 ^ 8 ≡ d
    omega_day = omega (arith, to_date-sum y m d f, f.year_lt, f.month_lt, f.day_lt)
