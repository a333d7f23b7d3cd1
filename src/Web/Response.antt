-- ===== src/Web/Response.antt =====
-- `bf2web::response` of emulator/bf2web.h and emulator/bf2web.cpp: the lines of a page and the
-- length that its last line carries.
use gamespy_emulator.Prelude.{
  ℕ, ◌+◌, Bool, true, false, Bytes, List, [], ◌∷◌, ◌++◌, codes, if◌then◌else◌, ◌==◌, length,
}
use gamespy_emulator.Utils.Number.{decimal}

-- `type`
pub data LineType : Type 0 where
  header data_line : LineType

-- What `Append` takes: an integral type, or a text.
pub data Element : Type 0 where
  number : ℕ → Element
  text : Bytes → Element

-- The declared order of the fields is the source's. No initialiser sets `error_code`.
pub record Response : Type 0 where
  pub error : Bool
  pub error_code : ℕ
  pub str : Bytes
  pub length : ℕ

-- A new response; `junk` is the value that `error_code` happens to have.
abbrev pub response : ℕ → Response
response junk = record { error = false; error_code = junk; str = []; length = 0 }

-- `SetError`
abbrev pub set_error : Response → Bool → ℕ → Response
set_error r error code = record r { error = error; error_code = code }

-- What `AppendElement` appends, less the tab: `std::to_string` of a number.
abbrev pub element_text : Element → Bytes
element_text (number n) = decimal n
element_text (text s) = s

-- `AppendElement`
unfoldable pub append_element : Response → Element → Response
append_element r e = record r {
  str = r.str ++ element_text e ++ codes "\t";
  length = r.length + length (element_text e);
}

unfoldable pub append_elements : Response → List Element → Response
append_elements r [] = r
append_elements r (e ∷ es) = append_elements (append_element r e) es

abbrev pub line_start : LineType → Bytes
line_start header = codes "H\t"
line_start data_line = codes "D\t"

abbrev pub start_line : Response → LineType → Response
start_line r t = record r { str = r.str ++ line_start t; length = r.length + 1 }

abbrev pub end_line : Response → Response
end_line r = record r { str = r.str ++ codes "\n" }

-- `Append`
unfoldable pub append : Response → LineType → List Element → Response
append r t es = end_line (append_elements (start_line r t) es)

-- The first line, less its newline, and `errlen`.
abbrev pub first_line : Bool → ℕ → Bytes × ℕ
first_line false code = (codes "O", 0)
first_line true code =
    if code == 0 then (codes "E", 0) else (codes "E\t" ++ decimal code, length (decimal code))

-- `ToString`
unfoldable pub to_string : Response → Bytes
to_string r =
    let (first, errlen) = first_line r.error r.error_code in
    (first ++ codes "\n")
    ++ r.str
    ++ (codes "$\t" ++ decimal (1 + r.length + errlen) ++ codes "\t$")
