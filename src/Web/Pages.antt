-- ===== src/Web/Pages.antt =====
-- `HttpClient::HandleBF2Web` of emulator/http.client.cpp: a function for each page. `now` is what
-- `std::time` returns, and `junk` what an uninitialised error code happens to be.
use gamespy_emulator.Players.{PlayerDb, get_profile_id}
use gamespy_emulator.Prelude.{
  ℕ, true, not, Option, none, some, Bytes, List, [], ◌∷◌, codes, if◌then◌else◌, ◌==◌, ltb, length,
  map, equal, to_lower,
}
use gamespy_emulator.Utils.Number.{parse_uint32}
use gamespy_emulator.Web.Response.{
  Response, Element, number, text, header, data_line, response, set_error, append, to_string,
}
use gamespy_emulator.Web.Unlocks.{unlocks, append_unlocks, append_states}

-- A request's target, as Boost.URL parses it: the encoded path and the decoded parameters.
pub record Uri : Type 0 where
  pub encoded_path : Bytes
  pub params : List (Bytes × Bytes)

-- `params.find`: the value of the first parameter of that name.
abbrev pub find_param : Bytes → List (Bytes × Bytes) → Option Bytes
find_param name [] = none
find_param name ((k, v) ∷ ps) = if equal k name then some v else find_param name ps

-- The parameter `pid`: 0 without one, and `none` where the text is no number.
abbrev pub pid_param : List (Bytes × Bytes) → Option ℕ
pid_param params = elim (find_param (codes "pid") params) [
  | none ↦ some 0
  | some value ↦ parse_uint32 value
]

module _ (now junk : ℕ) where
  -- A response of one header line and one data line.
  abbrev pub two_lines : List Element → List Element → Response
  two_lines names values = append (append (response junk) header names) data_line values

  -- The same with the error flag.
  abbrev pub error_page : ℕ → List Element → List Element → Bytes
  error_page code names values =
      to_string
        (append (append (set_error (response junk) true code) header names) data_line values)

  abbrev pub error_text : Bytes → Bytes
  error_text what = error_page 0 (text (codes "error") ∷ []) (text what ∷ [])

  abbrev pub dated_error : ℕ → Bytes → Bytes
  dated_error code what =
      error_page code (text (codes "asof") ∷ text (codes "error") ∷ [])
        (number now ∷ text what ∷ [])

  unfoldable pub awards_info : ℕ → Bytes
  awards_info pid = to_string (
      append
        (two_lines (text (codes "pid") ∷ text (codes "asof") ∷ []) (number pid ∷ number now ∷ []))
        header
        (text (codes "award")
          ∷ text (codes "level")
          ∷ text (codes "when")
          ∷ text (codes "first")
          ∷ []))

  unfoldable pub backend_info : Bytes
  backend_info = to_string (
      append_unlocks unlocks (
        append
          (two_lines (text (codes "ver") ∷ text (codes "now") ∷ [])
            (text (codes "0.1") ∷ number now ∷ []))
          header
          (text (codes "id")
            ∷ text (codes "kit")
            ∷ text (codes "name")
            ∷ text (codes "descr")
            ∷ [])))

  unfoldable pub leader_board : Bytes
  leader_board =
      to_string
        (two_lines (text (codes "size") ∷ text (codes "asof") ∷ []) (number 0 ∷ number now ∷ []))

  unfoldable pub player_info : ℕ → Option Bytes → Bytes
  player_info pid info = if pid == 0 then dated_error 107 (codes "Invalid Syntax!") else elim info [
    | none ↦ dated_error 0 (codes "Parameter Error!")
    | some value ↦
        if equal value (codes "overview")
        then to_string (
            two_lines
              (text (codes "pid")
                ∷ text (codes "nick")
                ∷ text (codes "country")
                ∷ text (codes "asof")
                ∷ [])
              (number pid ∷ text (codes "PlayerName") ∷ text (codes "US") ∷ number now ∷ []))
        else dated_error 0 (codes "Invalid Syntax!")
  ]

  unfoldable pub rank_info : Bytes
  rank_info = to_string (
      two_lines (text (codes "rank") ∷ text (codes "chng") ∷ text (codes "decr") ∷ [])
        (number 0 ∷ number 0 ∷ number 0 ∷ []))

  unfoldable pub unlocks_info : ℕ → Bytes
  unlocks_info pid =
      let names =
        append (response junk) header
          (text (codes "pid") ∷ text (codes "nick") ∷ text (codes "asof") ∷ []) in
      let player =
        append names data_line (number pid ∷ text (codes "All_Unlocks") ∷ number now ∷ []) in
      let ranks = append player header (text (codes "enlisted") ∷ text (codes "officer") ∷ []) in
      let counts = append ranks data_line (number 0 ∷ number 0 ∷ []) in
      to_string (
        append_states unlocks
          (append counts header (text (codes "id") ∷ text (codes "state") ∷ [])))

  module _ (db : PlayerDb) where
    open db use {Store, has_player, get_player_by_name}

    -- `none` where the code reads a player that the database did not return.
    unfoldable pub player_id : Store → Option Bytes → Option Bytes
    player_id s none = some (error_text (codes "No nick provided!"))
    player_id s (some nick) =
        if ltb 32 (length nick)
        then some (error_text (codes "Nick Specified is larger than 32 characters!"))
        else if not (has_player s nick)
        then some (dated_error 0 (codes "Player Not Found!"))
        else elim (get_player_by_name s nick) [
          | none ↦ none
          | some player ↦ some (
              to_string (two_lines (text (codes "pid") ∷ []) (number (get_profile_id player) ∷ [])))
        ]

    -- The chain of tests of the path.
    unfoldable pub page : Store → Bytes → ℕ → List (Bytes × Bytes) → Option Bytes
    page s path pid params =
        if equal path (codes "/asp/createplayer.aspx")
        then some (codes "OK")
        else if equal path (codes "/asp/getawardsinfo.aspx")
        then some (awards_info pid)
        else if equal path (codes "/asp/getbackendinfo.aspx")
        then some backend_info
        else if equal path (codes "/asp/getleaderboard.aspx")
        then some leader_board
        else if equal path (codes "/asp/getmapinfo.aspx")
        then some (error_text (codes "Map Data Not Found!"))
        else if equal path (codes "/asp/getplayerid.aspx")
        then player_id s (find_param (codes "nick") params)
        else if equal path (codes "/asp/getplayerinfo.aspx")
        then some (player_info pid (find_param (codes "info") params))
        else if equal path (codes "/asp/getrankinfo.aspx")
        then some rank_info
        else if equal path (codes "/asp/getunlocksinfo.aspx")
        then some (unlocks_info pid)
        else some []

    -- `HandleBF2Web`
    unfoldable pub handle_bf2web : Store → Uri → Option Bytes
    handle_bf2web s uri = elim (pid_param uri.params) [
      | none ↦ some []
      | some pid ↦ page s (map to_lower uri.encoded_path) pid uri.params
    ]
