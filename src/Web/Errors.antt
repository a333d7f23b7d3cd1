-- ===== src/Web/Errors.antt =====
-- `HttpClient::HandleBF2Web`: when the page of a player's id is an error, and the error code that
-- no initialiser sets.
use gamespy_emulator.Players.{PlayerDb}
use gamespy_emulator.Prelude.{
  ℕ, ◌≤◌, ◌≡◌, ◌↔◌, refl, true, Option, none, some, inl, inr, Bytes, codes, ltb, length, map, arith,
  Bool-cases, to_lower, starts_with, equal,
}
use gamespy_emulator.Web.Pages.{
  Uri, find_param, pid_param, awards_info, backend_info, leader_board, player_info, rank_info,
  unlocks_info, player_id, page, handle_bf2web,
}
use gamespy_emulator.Web.Response.{append_element, append_elements, append, to_string}
use gamespy_emulator.Web.Unlocks.{append_unlocks, append_states}

-- A page without an error starts with this letter.
abbrev pub IsOk : Option Bytes → Type 0
IsOk none = ⊥
IsOk (some s) = starts_with (codes "O") s ≡ true

-- The nick is given, short enough and known.
abbrev pub IsKnown : (db : PlayerDb) → PlayerDb.Store db → Option Bytes → Type 0
IsKnown db s nick =
    (name : Bytes) × (nick ≡ some name)
    × (length name ≤ 32)
    × (PlayerDb.has_player db s name ≡ true)

module _ (db : PlayerDb) (now junk : ℕ) where
  open db use {Store, has_player, get_player_by_name}

  player_id-IsOk_iff :
      (s : Store) (nick : Option Bytes) → IsOk (player_id now junk db s nick) ↔ IsKnown db s nick
  unfolding player_id append_element append_elements append to_string
  player_id-IsOk_iff s none = ground arith
  player_id-IsOk_iff s (some nick) = elim (Bool-cases (ltb 32 (length nick))) [
    | inl long ↦ rw long (ground arith)
    | inr short ↦ elim (Bool-cases (has_player s nick)) [
      | inl there ↦
          let (p, found) = db.has-get s nick there in
          rw (short, there, found) (λ e. (nick, refl, ground arith, there), λ k. refl)
      | inr missing ↦ rw (short, missing) (ground arith)
    ]
  ]

  -- A request for the page of a player's id: its answer is no error exactly where the parameter
  -- `nick` is given, has no more than 32 characters, and names a player of the database.
  pub handle_bf2web-IsOk_iff :
      (s : Store) (uri : Uri) (pid : ℕ)
      → pid_param uri.params ≡ some pid
      → map to_lower uri.encoded_path ≡ codes "/asp/getplayerid.aspx"
      → IsOk (handle_bf2web now junk db s uri) ↔ IsKnown db s (find_param (codes "nick") uri.params)
  unfolding handle_bf2web page equal
  handle_bf2web-IsOk_iff s uri pid good path =
      rw (good, path, handle_bf2web, page)
        (player_id-IsOk_iff s (find_param (codes "nick") uri.params))

  -- The answer is the same whatever the error code that no initialiser sets happens to be.
  pub handle_bf2web-any_junk :
      (other : ℕ) (s : Store) (uri : Uri)
      → handle_bf2web now junk db s uri ≡ handle_bf2web now other db s uri
  unfolding awards_info backend_info leader_board player_info rank_info unlocks_info player_id page
      handle_bf2web append_element append_elements append to_string append_unlocks append_states
  handle_bf2web-any_junk other s uri = refl
