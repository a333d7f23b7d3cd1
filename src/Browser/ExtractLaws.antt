-- ===== src/Browser/ExtractLaws.antt =====
-- The fields of a list request as a client writes them, and their extractors.
use mathlib.Core.List.{append-nil, append_assoc}
use gamespy_emulator.Prelude.{
  ℕ, ◌+◌, ◌*◌, ◌/◌, ◌%◌, ◌^◌, ◌≤◌, ◌<◌, ◌≡◌, ◌≢◌, refl, sym, ap, ◌∙◌, arith, true, false, Bytes,
  List, [], ◌∷◌, ◌++◌, Option, none, some, ltb, length, length-append, take, drop, bit_or,
}
use gamespy_emulator.Prelude.Masks.{bit_or_shifted}
use gamespy_emulator.Browser.Request.{
  extracted, ServerListRequest, has_option, find_nul, is_longer, extract_string, extract_span,
  extract_uint32, extract_options, split_from, extract_field_list, extract_optional,
}

-- No byte of the text is `d`.
abbrev pub IsFree : ℕ → Bytes → Type 0
IsFree d [] = Unit
IsFree d (c ∷ cs) = (c ≢ d) × IsFree d cs

-- Network order.
abbrev pub uint32_bytes : ℕ → Bytes
uint32_bytes n = (n / 2 ^ 24) ∷ (n / 2 ^ 16 % 256) ∷ (n / 2 ^ 8 % 256) ∷ (n % 256) ∷ []

abbrev pub write_fields : List Bytes → Bytes
write_fields [] = []
write_fields (f ∷ fs) = b'\\' ∷ (f ++ write_fields fs)

abbrev pub write_optional : Option ℕ → Bytes
write_optional none = []
write_optional (some n) = uint32_bytes n

-- The packet that asks for `r`, with more bytes behind it.
abbrev pub write_body : ServerListRequest → Bytes → Bytes
write_body r rest =
    uint32_bytes r.from_game_version
    ++ (r.from_game
        ++ (0
            ∷ (r.to_game
                ++ (0
                    ∷ (r.challenge
                        ++ (r.server_filter
                            ++ (0
                                ∷ (write_fields r.field_list
                                    ++ (0
                                        ∷ (uint32_bytes r.options
                                            ++ (write_optional r.alternate_source_ip
                                                ++ (write_optional r.limit_result_count
                                                    ++ rest))))))))))))

abbrev pub write_request : ServerListRequest → Bytes → Bytes
write_request r rest = 1 ∷ 3 ∷ write_body r rest

-- A number follows if, and only if, its option is set.
abbrev pub Matches : ℕ → ℕ → Option ℕ → Type 0
Matches o options none = has_option options o ≡ false
Matches o options (some n) = (has_option options o ≡ true) × (n < 2 ^ 32)

find_nul-write : (s rest : Bytes) → IsFree 0 s → find_nul (s ++ (0 ∷ rest)) ≡ some (s, rest)
unfolding find_nul
find_nul-write [] rest h = refl
find_nul-write (c ∷ s) rest h = ground (arith, find_nul-write s rest h.1)

pub extract_string-write :
    (max_length : Option ℕ) (s rest : Bytes)
    → IsFree 0 s
    → is_longer s max_length ≡ false
    → extract_string max_length (s ++ (0 ∷ rest)) ≡ extracted s rest
unfolding extract_string
extract_string-write none s rest h e = rw (find_nul-write s rest h, extract_string) refl
extract_string-write (some max_length) s rest h e =
    rw (find_nul-write s rest h, e, extract_string) refl

-- The four shifted bytes do not overlap.
or_of_bytes :
    (a b c d : ℕ)
    → b < 256
    → c < 256
    → d < 256
    → bit_or (bit_or (bit_or (a * 2 ^ 24) (b * 2 ^ 16)) (c * 2 ^ 8)) d
      ≡ a * 2 ^ 24 + b * 2 ^ 16 + c * 2 ^ 8 + d
or_of_bytes a b c d hb hc hd =
    let e₁ : a * 2 ^ 24 + b * 2 ^ 16 ≡ (a * 256 + b) * 2 ^ 16 = omega arith in
    let e₂ : (a * 256 + b) * 2 ^ 16 + c * 2 ^ 8 ≡ ((a * 256 + b) * 256 + c) * 2 ^ 8 = omega arith in
    rw
      (
        bit_or_shifted 24 a (b * 2 ^ 16) (omega arith),
        e₁,
        bit_or_shifted 16 (a * 256 + b) (c * 2 ^ 8) (omega arith),
        e₂,
        bit_or_shifted 8 ((a * 256 + b) * 256 + c) d hd,
      )
      (omega arith)

take-exact : (s rest : Bytes) → take (length s) (s ++ rest) ≡ s
take-exact [] rest = refl
take-exact (c ∷ s) rest = ap (λ t. c ∷ t) (take-exact s rest)

drop-exact : (s rest : Bytes) → drop (length s) (s ++ rest) ≡ rest
drop-exact [] rest = refl
drop-exact (c ∷ s) rest = drop-exact s rest

pub extract_span-write :
    (s rest : Bytes) (n : ℕ) → length s ≡ n → extract_span n (s ++ rest) ≡ extracted s rest
unfolding extract_span
extract_span-write s rest n h =
    let long : ltb (length s + length rest) (length s) ≡ false = ground arith in
    rw (sym h, length-append s rest, long, take-exact s rest, drop-exact s rest) refl

pub extract_uint32-write :
    (n : ℕ) (rest : Bytes) → n < 2 ^ 32 → extract_uint32 (uint32_bytes n ++ rest) ≡ extracted n rest
unfolding extract_uint32
extract_uint32-write n rest h = ground (
  arith,
  or_of_bytes (n / 2 ^ 24) (n / 2 ^ 16 % 256) (n / 2 ^ 8 % 256) (n % 256) (omega arith)
      (omega arith) (omega arith),
)

pub extract_options-write :
    (n : ℕ) (rest : Bytes) → n ≤ 128 → extract_options (uint32_bytes n ++ rest) ≡ extracted n rest
unfolding extract_options
extract_options-write n rest h = rw (extract_uint32-write n rest (omega arith)) (ground arith)

pub extract_optional-write :
    (o options : ℕ) (n : Option ℕ) (rest : Bytes)
    → Matches o options n
    → extract_optional o options (write_optional n ++ rest) ≡ extracted n rest
unfolding extract_optional
extract_optional-write o options none rest h = rw h refl
extract_optional-write o options (some n) rest h = rw (h.0, extract_uint32-write n rest h.1) refl

-- A name is split off at the next backslash, or at the end.
split_from-piece :
    (piece w rest : Bytes)
    → IsFree b'\\' w
    → split_from piece (w ++ (b'\\' ∷ rest)) ≡ (piece ++ w) ∷ split_from [] rest
unfolding split_from
split_from-piece piece [] rest h = rw (append-nil piece) refl
split_from-piece piece (c ∷ w) rest h =
    ground (arith, split_from-piece (piece ++ c ∷ []) w rest h.1, append_assoc piece (c ∷ []) w)

split_from-last : (piece w : Bytes) → IsFree b'\\' w → split_from piece w ≡ (piece ++ w) ∷ []
unfolding split_from
split_from-last piece [] h = rw (append-nil piece) refl
split_from-last piece (c ∷ w) h =
    ground (arith, split_from-last (piece ++ c ∷ []) w h.1, append_assoc piece (c ∷ []) w)

-- Names that can be split again: not empty, with no backslash and no NUL.
abbrev pub AllNames : List Bytes → Type 0
AllNames [] = Unit
AllNames (f ∷ fs) = ((f ≢ []) × IsFree b'\\' f × IsFree 0 f) × AllNames fs

split_from-write :
    (f : Bytes) (fs : List Bytes)
    → AllNames (f ∷ fs)
    → split_from [] (f ++ write_fields fs) ≡ f ∷ fs
split_from-write f [] h = rw (append-nil f) (split_from-last [] f h.0.1)
split_from-write f (g ∷ fs) h =
    split_from-piece [] f (g ++ write_fields fs) h.0.1 ∙ ap (λ t. f ∷ t) (split_from-write g fs h.1)

IsFree-append : (d : ℕ) (a b : Bytes) → IsFree d a → IsFree d b → IsFree d (a ++ b)
IsFree-append d [] b h k = k
IsFree-append d (c ∷ a) b h k = (h.0, IsFree-append d a b h.1 k)

write_fields-IsFree : (fs : List Bytes) → AllNames fs → IsFree 0 (write_fields fs)
write_fields-IsFree [] h = tt
write_fields-IsFree (f ∷ fs) h =
    (omega arith, IsFree-append 0 f (write_fields fs) h.0.2 (write_fields-IsFree fs h.1))

pub extract_field_list-write :
    (fs : List Bytes) (rest : Bytes)
    → fs ≢ []
    → AllNames fs
    → length (write_fields fs) ≤ 256
    → extract_field_list (write_fields fs ++ (0 ∷ rest)) ≡ extracted fs rest
unfolding extract_field_list
extract_field_list-write [] rest n h l = absurd (n refl)
extract_field_list-write ([] ∷ fs) rest n h l = absurd (h.0.0 refl)
extract_field_list-write ((c ∷ f) ∷ fs) rest n h l =
    let short : is_longer (write_fields ((c ∷ f) ∷ fs)) (some 256) ≡ false = ground arith in
    rw
      (extract_string-write (some 256) (write_fields ((c ∷ f) ∷ fs)) rest
        (write_fields-IsFree ((c ∷ f) ∷ fs) h) short)
      (ap (λ t. extracted t rest) (split_from-write (c ∷ f) fs h))
