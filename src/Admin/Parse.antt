-- ===== src/Admin/Parse.antt =====
-- `parseInt` and `mimeType` of emulator/admin.cpp.
use gamespy_emulator.Prelude.{
  ℕ, ◌^◌, Option, none, some, Bytes, List, [], ◌∷◌, codes, if◌then◌else◌, ◌==◌, ltb, map, equal,
  to_lower,
}
use gamespy_emulator.Utils.Number.{scan_digits}

-- The value that `std::from_chars` stores; `junk` is what stands there before.
abbrev pub stored : ℕ → ℕ × Bytes → Option ℕ
stored junk (value, c ∷ rest) = none
stored junk (value, []) = some (if ltb value (2 ^ 32) then value else junk)

-- `parseInt`: only the place where `std::from_chars` stops is tested, and that is the end of the
-- text also where the text is empty or the number is out of range.
unfoldable pub parse_int : ℕ → Bytes → Option ℕ
parse_int junk [] = some junk
parse_int junk (c ∷ cs) = stored junk (scan_digits 0 (c ∷ cs))

-- The text from the last dot on.
abbrev pub after_dot : Bytes → Bytes → Bytes
after_dot found [] = found
after_dot found (c ∷ cs) = after_dot (if c == b'.' then c ∷ cs else found) cs

-- `ext`: empty if there is no dot.
unfoldable pub extension : Bytes → Bytes
extension path = after_dot [] path

-- The chain of `iequals` tests.
abbrev pub mime_types : List (Bytes × Bytes)
mime_types =
    (codes ".htm", codes "text/html")
    ∷ (codes ".html", codes "text/html")
    ∷ (codes ".php", codes "text/html")
    ∷ (codes ".css", codes "text/css")
    ∷ (codes ".txt", codes "text/plain")
    ∷ (codes ".js", codes "application/javascript")
    ∷ (codes ".json", codes "application/json")
    ∷ (codes ".xml", codes "application/xml")
    ∷ (codes ".swf", codes "application/x-shockwave-flash")
    ∷ (codes ".flv", codes "video/x-flv")
    ∷ (codes ".png", codes "image/png")
    ∷ (codes ".jpe", codes "image/jpeg")
    ∷ (codes ".jpeg", codes "image/jpeg")
    ∷ (codes ".jpg", codes "image/jpeg")
    ∷ (codes ".gif", codes "image/gif")
    ∷ (codes ".bmp", codes "image/bmp")
    ∷ (codes ".ico", codes "image/vnd.microsoft.icon")
    ∷ (codes ".tiff", codes "image/tiff")
    ∷ (codes ".tif", codes "image/tiff")
    ∷ (codes ".svg", codes "image/svg+xml")
    ∷ (codes ".svgz", codes "image/svg+xml")
    ∷ []

unfoldable pub find_mime : Bytes → List (Bytes × Bytes) → Bytes
find_mime ext [] = codes "application/text"
find_mime ext ((e, mime) ∷ types) = if equal (map to_lower ext) e then mime else find_mime ext types

-- `mimeType`
unfoldable pub mime_type : Bytes → Bytes
mime_type path = find_mime (extension path) mime_types
