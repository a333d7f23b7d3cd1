-- ===== src/Browser/RequestLaws.antt =====
-- A list request as a client writes it, and its parser.
use gamespy_emulator.Prelude.{
  ◌^◌, ◌≤◌, ◌<◌, ◌≡◌, ◌≢◌, refl, sym, ap₂, arith, false, Bytes, [], ◌∷◌, ◌++◌, none, some, ltb,
  length,
}
use gamespy_emulator.Browser.Options
use gamespy_emulator.Browser.Request.{extracted, ServerListRequest, is_longer, parse_body, parse}
use gamespy_emulator.Browser.ExtractLaws.{
  IsFree, uint32_bytes, write_fields, write_optional, write_request, write_body, Matches, AllNames,
  extract_string-write, extract_uint32-write, extract_span-write, extract_options-write,
  extract_optional-write, extract_field_list-write,
}

-- What a client has to keep to: numbers of 32 bits, texts without NUL, some names, the two lengths
-- of at most 256, a challenge of 8 bytes, options of at most 128, and the two numbers exactly when
-- their options are set.
pub record IsWritable (r : ServerListRequest) : Type 0 where
  pub protocol : r.protocol_version ≡ 1
  pub encoding : r.encoding_version ≡ 3
  pub version : r.from_game_version < 2 ^ 32
  pub from_free : IsFree 0 r.from_game
  pub to_free : IsFree 0 r.to_game
  pub challenge_length : length r.challenge ≡ 8
  pub filter_free : IsFree 0 r.server_filter
  pub filter_short : length r.server_filter ≤ 256
  pub fields_some : r.field_list ≢ []
  pub fields_names : AllNames r.field_list
  pub fields_short : length (write_fields r.field_list) ≤ 256
  pub options_small : r.options ≤ 128
  pub alternate : Matches Options.alternate_source_ip r.options r.alternate_source_ip
  pub limit : Matches Options.limit_result_count r.options r.limit_result_count

parse_body-write_body :
    (r : ServerListRequest) (rest : Bytes)
    → IsWritable r
    → parse_body 1 3 (write_body r rest) ≡ extracted r rest
unfolding parse_body
parse_body-write_body r rest h =
    let short : is_longer r.server_filter (some 256) ≡ false = ground (arith, h.filter_short) in
    let after_limit = write_optional r.limit_result_count ++ rest in
    let after_alternate = write_optional r.alternate_source_ip ++ after_limit in
    let after_options = uint32_bytes r.options ++ after_alternate in
    let after_fields = write_fields r.field_list ++ (0 ∷ after_options) in
    let after_filter = r.server_filter ++ (0 ∷ after_fields) in
    let after_challenge = r.challenge ++ after_filter in
    let after_to = r.to_game ++ (0 ∷ after_challenge) in
    let after_from = r.from_game ++ (0 ∷ after_to) in
    rw
      (
        extract_uint32-write r.from_game_version after_from h.version,
        extract_string-write none r.from_game after_to h.from_free refl,
        extract_string-write none r.to_game after_challenge h.to_free refl,
        extract_span-write r.challenge after_filter 8 h.challenge_length,
        extract_string-write (some 256) r.server_filter after_fields h.filter_free short,
        extract_field_list-write r.field_list after_options h.fields_some h.fields_names
            h.fields_short,
        extract_options-write r.options after_alternate h.options_small,
        extract_optional-write Options.alternate_source_ip r.options r.alternate_source_ip
            after_limit h.alternate,
        extract_optional-write Options.limit_result_count r.options r.limit_result_count rest
            h.limit,
      )
      (ap₂ (λ p e. extracted (record r { protocol_version = p; encoding_version = e }) rest)
        (sym h.protocol) (sym h.encoding))

-- A request that keeps to `IsWritable`, written in at least 26 bytes, is read back as it is,
-- whatever bytes stand behind it.
pub parse-write_request :
    (r : ServerListRequest) (rest : Bytes)
    → IsWritable r
    → 26 ≤ length (write_request r rest)
    → parse (write_request r rest) ≡ extracted r rest
unfolding parse
parse-write_request r rest h l =
    let long : ltb (length (write_request r rest)) 26 ≡ false = ground arith in
    rw long (parse_body-write_body r rest h)
