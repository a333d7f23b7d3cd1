-- ===== src/Browser/Request.antt =====
-- `ServerListRequest::Parse` of emulator/sb_request.cpp. An extractor returns what it read and the
-- bytes behind it, or the error.
use gamespy_emulator.Prelude.{
  ℕ, ◌*◌, ◌%◌, ◌^◌, Bool, false, ◌&&◌, not, Bytes, List, [], ◌∷◌, ◌++◌, Option, none, some, ltb,
  leb, ◌==◌, if◌then◌else◌, length, take, drop, bit_or, bit_and,
}
use gamespy_emulator.Browser.Options

pub data ParseError : Type 0 where
  unknown_protocol_version unknown_encoding_version invalid_key too_many_keys : ParseError
  invalid_alternate_ip insufficient_length : ParseError

pub data Parsed {ℓ} (A : Type ℓ) : Type ℓ where
  extracted : A → Bytes → Parsed A
  failed : ParseError → Parsed A

-- `and_then` and `transform` of `std::expected`.
abbrev pub and_then {ℓ κ} : {A : Type ℓ} {B : Type κ} → Parsed A → (A → Bytes → Parsed B) → Parsed B
and_then (extracted a rest) f = f a rest
and_then (failed e) f = failed e

pub record ServerListRequest : Type 0 where
  pub protocol_version : ℕ
  pub encoding_version : ℕ
  pub from_game_version : ℕ
  pub from_game : Bytes
  pub to_game : Bytes
  pub challenge : Bytes
  pub server_filter : Bytes
  pub field_list : List Bytes
  pub options : ℕ
  pub alternate_source_ip : Option ℕ
  pub limit_result_count : Option ℕ

-- `operator&` of two `Options`.
abbrev pub has_option : ℕ → ℕ → Bool
has_option options o = ltb 0 (bit_and options o)

-- The bytes before the first NUL, and those behind it.
unfoldable pub find_nul : Bytes → Option (Bytes × Bytes)
find_nul [] = none
find_nul (c ∷ cs) =
    let rest = find_nul cs in
    if c == 0 then some ([], cs) else elim rest [ none ↦ none | some p ↦ some (c ∷ p.0, p.1) ]

-- The test against `maxLength`; `none` is `npos`.
abbrev pub is_longer : Bytes → Option ℕ → Bool
is_longer s none = false
is_longer s (some max_length) = ltb max_length (length s)

unfoldable pub extract_string : Option ℕ → Bytes → Parsed Bytes
extract_string max_length bytes = elim (find_nul bytes) [
  | none ↦ failed insufficient_length
  | some p ↦ if is_longer p.0 max_length then failed too_many_keys else extracted p.0 p.1
]

unfoldable pub extract_span : ℕ → Bytes → Parsed Bytes
extract_span n bytes =
    if ltb (length bytes) n
    then failed insufficient_length
    else extracted (take n bytes) (drop n bytes)

-- The four increments of the iterator are taken from left to right.
unfoldable pub extract_uint32 : Bytes → Parsed ℕ
extract_uint32 (a ∷ b ∷ c ∷ d ∷ rest) =
    extracted (bit_or (bit_or (bit_or (a * 2 ^ 24 % 2 ^ 32) (b * 2 ^ 16)) (c * 2 ^ 8)) d) rest
extract_uint32 _ = failed insufficient_length

-- `ExtractOptions`, whose range check is from `Options::min` to `Options::max`.
abbrev pub check_options : ℕ → Bytes → Parsed ℕ
check_options value rest =
    if value == 0
    then extracted 0 rest
    else if leb 1 value && leb value 128
    then extracted value rest
    else failed invalid_key

unfoldable pub extract_options : Bytes → Parsed ℕ
extract_options bytes = and_then (extract_uint32 bytes) check_options

-- The pieces of a text that is not empty, `piece` being what was read of the first.
unfoldable pub split_from : Bytes → Bytes → List Bytes
split_from piece [] = piece ∷ []
split_from piece (c ∷ cs) =
    if c == b'\\' then piece ∷ split_from [] cs else split_from (piece ++ c ∷ []) cs

-- `std::views::split`: an empty text has no pieces.
abbrev pub split : Bytes → List Bytes
split [] = []
split (c ∷ cs) = split_from [] (c ∷ cs)

abbrev pub split_fields : Bytes → Bytes → Parsed (List Bytes)
split_fields [] rest = failed invalid_key
split_fields (c ∷ fields) rest =
    if c == b'\\' then extracted (split fields) rest else failed invalid_key

unfoldable pub extract_field_list : Bytes → Parsed (List Bytes)
extract_field_list bytes = and_then (extract_string (some 256) bytes) split_fields

-- `ExtractAlternateIP` and `ExtractLimit`: a number if the option `o` is set.
unfoldable pub extract_optional : ℕ → ℕ → Bytes → Parsed (Option ℕ)
extract_optional o options bytes =
    if has_option options o
    then and_then (extract_uint32 bytes) (λ n rest. extracted (some n) rest)
    else extracted none bytes

-- The chain of extractors, behind the two versions.
unfoldable pub parse_body : ℕ → ℕ → Bytes → Parsed ServerListRequest
parse_body protocol encoding bytes = and_then (extract_uint32 bytes) (λ gameversion bytes₁.
    and_then (extract_string none bytes₁) (λ from_game bytes₂.
      and_then (extract_string none bytes₂) (λ to_game bytes₃.
        and_then (extract_span 8 bytes₃) (λ challenge bytes₄.
          and_then (extract_string (some 256) bytes₄) (λ server_filter bytes₅.
            and_then (extract_field_list bytes₅) (λ field_list bytes₆.
              and_then (extract_options bytes₆) (λ options bytes₇.
                and_then (extract_optional Options.alternate_source_ip options bytes₇)
                  (λ alternate bytes₈.
                    and_then (extract_optional Options.limit_result_count options bytes₈)
                      (λ limit rest.
                        extracted
                          (record {
                            protocol_version = protocol;
                            encoding_version = encoding;
                            from_game_version = gameversion;
                            from_game = from_game;
                            to_game = to_game;
                            challenge = challenge;
                            server_filter = server_filter;
                            field_list = field_list;
                            options = options;
                            alternate_source_ip = alternate;
                            limit_result_count = limit;
                          })
                          rest)))))))))

-- The versions, in a packet that is long enough.
abbrev parse_versions : Bytes → Parsed ServerListRequest
parse_versions (protocol ∷ encoding ∷ bytes) =
    if not (protocol == 1)
    then failed unknown_protocol_version
    else if not (encoding == 3)
    then failed unknown_encoding_version
    else parse_body protocol encoding bytes
parse_versions _ = failed insufficient_length

-- `ServerListRequest::Parse`; the bytes left are those that the source does not look at.
unfoldable pub parse : Bytes → Parsed ServerListRequest
parse packet = if ltb (length packet) 26 then failed insufficient_length else parse_versions packet
