-- ===== src/Web/Counts.antt =====
-- `bf2web::response` and the pages of `HttpClient::HandleBF2Web`: what the length of the last line
-- counts.
use gamespy_emulator.Prelude.{
  ℕ, zero, suc, ◌+◌, ◌/◌, ◌%◌, ◌≡◌, refl, Bool, true, false, ◌||◌, inl, inr, Bytes, List, [], ◌∷◌,
  ◌++◌, codes, if◌then◌else◌, ◌==◌, length, length-append, arith, Bool-cases, ltb,
}
use gamespy_emulator.Utils.Number.{decimal, decimal_fuel}
use gamespy_emulator.Web.Response.{
  Response, Element, number, text, append_element, append_elements, append, LineType, header,
  data_line, element_text, start_line, end_line, to_string, first_line,
}

-- A tab or a newline.
abbrev pub is_blank : ℕ → Bool
is_blank c = c == 9 || c == 10

-- How many characters of a text are neither tabs nor newlines.
unfoldable pub visible : Bytes → ℕ
visible [] = 0
visible (c ∷ cs) = (if is_blank c then 0 else 1) + visible cs

abbrev pub IsClean : Bytes → Type 0
IsClean s = visible s ≡ length s

-- The last line carries the count of the visible characters before it.
abbrev pub IsCounted : Bytes → Type 0
IsCounted s = (body : Bytes) × (s ≡ body ++ (codes "$\t" ++ decimal (visible body) ++ codes "\t$"))

-- The texts among the elements have no tabs and no newlines.
abbrev pub AreClean : List Element → Type 0
AreClean [] = Unit
AreClean (number n ∷ es) = AreClean es
AreClean (text s ∷ es) = IsClean s × AreClean es

abbrev pub IsCounting : Response → Type 0
IsCounting r = visible r.str ≡ r.length

pub visible-append : (s t : Bytes) → visible (s ++ t) ≡ visible s + visible t
unfolding visible
visible-append [] t = omega arith
visible-append (c ∷ cs) t = rw (visible-append cs t) (omega arith)

decimal_fuel-IsClean : (f n : ℕ) → IsClean (decimal_fuel f n)
unfolding decimal_fuel visible
decimal_fuel-IsClean zero n = refl
decimal_fuel-IsClean (suc f) n = elim (Bool-cases (ltb n 10)) [
  | inl small ↦ rw small (ground arith)
  | inr large ↦
      let high = decimal_fuel f (n / 10) in
      let last = (b'0' + n % 10) ∷ [] in
      let digit : visible last ≡ 1 = ground arith in
      rw
        (
          large,
          visible-append high last,
          length-append high last,
          decimal_fuel-IsClean f (n / 10),
          digit,
        )
        refl
]

decimal-IsClean : (n : ℕ) → IsClean (decimal n)
unfolding decimal
decimal-IsClean n = decimal_fuel-IsClean (suc n) n

append_element-IsCounting :
    (r : Response) (e : Element)
    → IsClean (element_text e)
    → IsCounting r
    → IsCounting (append_element r e)
unfolding append_element visible
append_element-IsCounting r e clean h =
    rw
      (
        visible-append (r.str ++ element_text e) (codes "\t"),
        visible-append r.str (element_text e),
        h,
        clean,
      )
      (omega arith)

append_elements-IsCounting :
    (r : Response) (es : List Element)
    → AreClean es
    → IsCounting r
    → IsCounting (append_elements r es)
unfolding append_elements
append_elements-IsCounting r [] clean h = h
append_elements-IsCounting r (number n ∷ es) clean h =
    append_elements-IsCounting (append_element r (number n)) es clean
      (append_element-IsCounting r (number n) (decimal-IsClean n) h)
append_elements-IsCounting r (text s ∷ es) (here, later) h =
    append_elements-IsCounting (append_element r (text s)) es later
      (append_element-IsCounting r (text s) here h)

start_line-IsCounting : (r : Response) (t : LineType) → IsCounting r → IsCounting (start_line r t)
unfolding visible
start_line-IsCounting r header h = rw (visible-append r.str (codes "H\t"), h) refl
start_line-IsCounting r data_line h = rw (visible-append r.str (codes "D\t"), h) refl

end_line-IsCounting : (r : Response) → IsCounting r → IsCounting (end_line r)
unfolding visible
end_line-IsCounting r h = rw (visible-append r.str (codes "\n"), h) (omega arith)

-- A line of elements without tabs and newlines keeps the length at the count of the visible
-- characters.
pub append-IsCounting :
    (r : Response) (t : LineType) (es : List Element)
    → AreClean es
    → IsCounting r
    → IsCounting (append r t es)
unfolding append
append-IsCounting r t es clean h =
    end_line-IsCounting (append_elements (start_line r t) es)
      (append_elements-IsCounting (start_line r t) es clean (start_line-IsCounting r t h))

visible-first_line :
    (error : Bool) (code : ℕ)
    → visible ((first_line error code).0 ++ codes "\n") ≡ 1 + (first_line error code).1
unfolding visible
visible-first_line false code = refl
visible-first_line true code = elim (Bool-cases (code == 0)) [
  | inl zero_code ↦ rw zero_code refl
  | inr other ↦
      rw (other, visible-append (decimal code) (codes "\n"), decimal-IsClean code) (omega arith)
]

pub to_string-IsCounted : (r : Response) → IsCounting r → IsCounted (to_string r)
unfolding to_string
to_string-IsCounted r h =
    let (first, errlen) = first_line r.error r.error_code in
    let body = (first ++ codes "\n") ++ r.str in
    let count : visible body ≡ 1 + r.length + errlen =
      rw (visible-append (first ++ codes "\n") r.str, visible-first_line r.error r.error_code, h)
        (omega arith) in
    (body, rw count refl)
