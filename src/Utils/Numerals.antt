-- ===== src/Utils/Numerals.antt =====
-- `utils::parse_uint32`: which texts it reads, and as which numbers.
use mathlib.Core.List.{append_assoc, append-nil}
use mathlib.Core.Path.{subst}
use gamespy_emulator.Prelude.{
  ℕ, ◌+◌, ◌-◌, ◌*◌, ◌^◌, ◌<◌, ◌≡◌, ◌↔◌, refl, sym, ap, ap₂, ◌∙◌, true, none, some, Bytes, [], ◌∷◌,
  ◌++◌, is_digit, ltb, ltb→lt, Bool-cases, inl, inr, arith, some_injective,
}
use gamespy_emulator.Utils.Number.{
  scan_digits, parsed, from_chars, whole, parse_uint32, scan_digits-nil, parse_uint32-cons,
}

-- The text is a decimal numeral of the number: a digit, or a numeral with a digit behind it.
pub data IsNumeral : Bytes → ℕ → Type 0 where
  one_digit : (d : ℕ) → is_digit d ≡ true → IsNumeral (d ∷ []) (d - b'0')
  more_digits :
      (ds : Bytes) (n d : ℕ)
      → IsNumeral ds n
      → is_digit d ≡ true
      → IsNumeral (ds ++ d ∷ []) (n * 10 + (d - b'0'))

scan_digits-IsNumeral :
    {ds : Bytes} {n : ℕ}
    → IsNumeral ds n
    → (rest : Bytes) → scan_digits 0 (ds ++ rest) ≡ scan_digits n rest
unfolding scan_digits
scan_digits-IsNumeral (one_digit d h) rest =
    let value : 0 + (d - b'0') ≡ d - b'0' = omega arith in rw h (ap (λ x. scan_digits x rest) value)
scan_digits-IsNumeral (more_digits ds n d i h) rest =
    ap (scan_digits 0) (append_assoc ds (d ∷ []) rest)
    ∙ scan_digits-IsNumeral i (d ∷ rest)
    ∙ rw h refl

IsNumeral-digit :
    {ds : Bytes} {n : ℕ}
    → IsNumeral ds n
    → (c : ℕ) × (cs : Bytes) × (ds ≡ c ∷ cs) × (is_digit c ≡ true)
IsNumeral-digit (one_digit d h) = (d, [], refl, h)
IsNumeral-digit (more_digits ds n d i h) =
    let (c, cs, e, digit) = IsNumeral-digit i in (c, cs ++ d ∷ [], ap (λ x. x ++ d ∷ []) e, digit)

IsNumeral-scan_digits :
    (cs ds : Bytes) (acc n : ℕ)
    → IsNumeral ds acc
    → scan_digits acc cs ≡ (n, [])
    → IsNumeral (ds ++ cs) n
unfolding scan_digits
IsNumeral-scan_digits [] ds acc n i h =
    subst (λ x. IsNumeral x n) (sym (append-nil ds))
      (subst (IsNumeral ds) (ap (λ (p : ℕ × Bytes). p.0) h) i)
IsNumeral-scan_digits (c ∷ cs) ds acc n i h = elim (Bool-cases (is_digit c)) [
  | inl digit ↦
      subst (λ x. IsNumeral x n) (append_assoc ds (c ∷ []) cs)
        (IsNumeral-scan_digits cs (ds ++ c ∷ []) (acc * 10 + (c - b'0')) n
          (more_digits ds acc c i digit) (rw (digit, scan_digits) at h))
  | inr other ↦
      let stopped : (acc, c ∷ cs) ≡ (n, []) = rw (other, scan_digits) at h in
      let empty : c ∷ cs ≡ [] = ap (λ (p : ℕ × Bytes). p.1) stopped in cc
]

whole-parsed :
    (value n : ℕ) (rest : Bytes) → whole (parsed value rest) ≡ some n → (value ≡ n) × (rest ≡ [])
whole-parsed value n [] h = (some_injective h, refl)
whole-parsed value n (c ∷ cs) h = cc

parse_uint32-IsNumeral :
    (str : Bytes) (n : ℕ) → parse_uint32 str ≡ some n → IsNumeral str n × (n < 2 ^ 32)
unfolding parse_uint32 from_chars scan_digits
parse_uint32-IsNumeral [] n h = cc
parse_uint32-IsNumeral (c ∷ cs) n h = elim (Bool-cases (is_digit c)) [
  | inr other ↦ let stuck : none ≡ some n = rw (other, parse_uint32, from_chars) at h in cc
  | inl digit ↦
      let scanned = scan_digits (0 + (c - b'0')) cs in
      elim (Bool-cases (ltb scanned.0 (2 ^ 32))) [
        | inr large ↦
            let stuck : none ≡ some n = rw (digit, large, parse_uint32, from_chars) at h in cc
        | inl small ↦
            let read : whole (parsed scanned.0 scanned.1) ≡ some n =
              rw (digit, small, parse_uint32, from_chars) at h in
            let (value, rest) = whole-parsed scanned.0 n scanned.1 read in
            let start : c - b'0' ≡ 0 + (c - b'0') = omega arith in
            (
              IsNumeral-scan_digits cs (c ∷ []) (0 + (c - b'0')) n
                  (subst (IsNumeral (c ∷ [])) start (one_digit c digit))
                  (ap₂ (λ a b. (a, b)) value rest),
              subst (λ x. x < 2 ^ 32) value (ltb→lt scanned.0 (2 ^ 32) small),
            )
      ]
]

IsNumeral-parse_uint32 :
    (str : Bytes) (n : ℕ) → IsNumeral str n → n < 2 ^ 32 → parse_uint32 str ≡ some n
unfolding parse_uint32
IsNumeral-parse_uint32 str n i h =
    let (c, cs, e, digit) = IsNumeral-digit i in
    let scanned : scan_digits 0 str ≡ (n, []) =
      ap (scan_digits 0) (sym (append-nil str)) ∙ scan_digits-IsNumeral i [] ∙ scan_digits-nil n in
    rw e (parse_uint32-cons c n cs digit (rw e at scanned) h)

-- The parser reads a text as a number if and only if the text is a numeral of that number, to its
-- last character, and the number has 32 bits.
pub parse_uint32_iff :
    (str : Bytes) (n : ℕ) → (parse_uint32 str ≡ some n) ↔ (IsNumeral str n × (n < 2 ^ 32))
parse_uint32_iff str n = (parse_uint32-IsNumeral str n, λ h. IsNumeral-parse_uint32 str n h.0 h.1)
