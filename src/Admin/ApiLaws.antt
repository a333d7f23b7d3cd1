-- ===== src/Admin/ApiLaws.antt =====
-- `AdminClient::HandleAPI`: which calls change a game, and what stays true of the games.
use mathlib.Core.Path.{subst}
use gamespy_emulator.Admin.Api.{
  Method, get, post, delete, Param, file, Outcome, undefined, exception, response, find_param,
  number_or, incoming_server, after_method, api_games, list_servers, api_servers, change_server,
  api_server, api_of_game, handle_api,
}
use gamespy_emulator.Admin.Parse.{parse_int}
use gamespy_emulator.Game.Data.{Game, ServerData, Statement, Run, returned, threw, after_run}
use gamespy_emulator.Game.Database.{find_game, replace_game}
use gamespy_emulator.Game.Identifiers.{All, IsSafe}
use gamespy_emulator.Game.Safety.{
  add_or_update_server-IsSafe, remove_servers-IsSafe, query_servers-IsSafe,
}
use gamespy_emulator.Game.Select.{query_servers}
use gamespy_emulator.Game.Servers.{add_or_update_server, remove_servers}
use gamespy_emulator.Prelude.{
  ℕ, ◌%◌, ◌^◌, ◌≡◌, ◌⊎◌, refl, Bool, true, false, Option, none, some, Bytes, List, [], ◌∷◌, codes,
  if◌then◌else◌, equal, equal_iff, inl, inr, Bool-cases, Option-cases, some_injective,
}

-- A request to add or to remove the server of an address.
pub record IsServerCall (method : Method) (path : Bytes) (params : List Param) : Type 0 where
  pub at_server : path ≡ codes "/api/server"
  pub changes : (method ≡ post) ⊎ (method ≡ delete)
  pub ip : Param
  pub addressed : find_param (codes "ip") params ≡ some ip

-- A request to list the servers.
abbrev pub IsListing : Method → Bytes → Type 0
IsListing method path = (path ≡ codes "/api/servers") × (method ≡ get)

-- A request that sends something to the database of a game that is there.
pub record IsGameCall (games : List Game) (method : Method) (path : Bytes) (params : List Param)
    : Type 0 where
  pub name : Param
  pub named : find_param (codes "game") params ≡ some name
  pub game : Game
  pub there : find_game name.value games ≡ some game
  pub calls : IsServerCall method path params ⊎ IsListing method path

-- A listing whose limit or number of servers to skip is no number.
pub record IsUnread (junk : ℕ) (method : Method) (path : Bytes) (params : List Param) : Type 0 where
  pub listing : IsListing method path
  pub unread :
      (number_or junk 100 (find_param (codes "limit") params) ≡ none)
      ⊎ (number_or junk 0 (find_param (codes "skip") params) ≡ none)

-- The games change only if `Allowed`, and then their statements stay safe; no file is served.
abbrev pub IsKept : Type 0 → List Game → List Game → Type 0
IsKept Allowed games games' = ((games' ≡ games) ⊎ Allowed) × (All IsSafe games → All IsSafe games')

abbrev pub IsSound : Type 0 → Type 0 → List Game → Outcome → Type 0
IsSound Allowed Unread games undefined = Unread
IsSound Allowed Unread games (exception games') = IsKept Allowed games games'
IsSound Allowed Unread games (response games' status (file path mime)) = ⊥
IsSound Allowed Unread games (response games' status _) = IsKept Allowed games games'

same-IsKept : (Allowed : Type 0) (games : List Game) → IsKept Allowed games games
same-IsKept Allowed games = (inl refl, λ h. h)

replace_game-IsSafe :
    (name : Bytes) (g : Game) (games : List Game)
    → IsSafe g
    → All IsSafe games
    → All IsSafe (replace_game name g games)
unfolding replace_game
replace_game-IsSafe name g [] hg h = tt
replace_game-IsSafe name g (g' ∷ games) hg (here, later) =
    elim (Bool-cases (equal g'.game_data.name name)) [
      | inl same ↦ rw same (hg, replace_game-IsSafe name g games hg later)
      | inr differs ↦ rw differs (here, replace_game-IsSafe name g games hg later)
    ]

find_game-IsSafe :
    (name : Bytes) (g : Game) (games : List Game)
    → find_game name games ≡ some g
    → All IsSafe games
    → IsSafe g
unfolding find_game
find_game-IsSafe name g [] e h = cc
find_game-IsSafe name g (g' ∷ games) e (here, later) =
    elim (Bool-cases (equal g'.game_data.name name)) [
      | inl same ↦ subst IsSafe (some_injective (rw (same, find_game) at e)) here
      | inr differs ↦ find_game-IsSafe name g games (rw (differs, find_game) at e) later
    ]

after_method-IsSound :
    (Allowed Unread : Type 0) (name : Bytes) (games : List Game) (what : Bytes) (r : Run Game)
    → Allowed
    → (All IsSafe games → IsSafe (after_run r))
    → IsSound Allowed Unread games (after_method name games what r)
after_method-IsSound Allowed Unread name games what (returned g) a h =
    (inr a, λ safe. replace_game-IsSafe name g games (h safe) safe)
after_method-IsSound Allowed Unread name games what (threw g) a h =
    (inr a, λ safe. replace_game-IsSafe name g games (h safe) safe)

api_games-IsSound :
    (Allowed Unread : Type 0) (games : List Game) (method : Method)
    → IsSound Allowed Unread games (api_games games method)
unfolding api_games
api_games-IsSound Allowed Unread games get = same-IsKept Allowed games
api_games-IsSound Allowed Unread games _ = same-IsKept Allowed games

module _ (accepts : List Statement → Statement → Bool) (junk : ℕ)
    (get_servers : Game → Bytes → List Bytes → ℕ → ℕ → List ServerData) where
  list_servers-IsSound :
      (Allowed Unread : Type 0) (games : List Game) (name : Bytes) (game : Game) (query : Bytes)
      (fields : List Bytes) (limit skip : Option ℕ)
      → Allowed
      → ((limit ≡ none) ⊎ (skip ≡ none) → Unread)
      → (All IsSafe games → IsSafe game)
      → IsSound Allowed Unread games
          (list_servers accepts junk get_servers games name game query fields limit skip)
  list_servers-IsSound Allowed Unread games name game query fields (some limit) (some skip) a u h =
      (
        inr a,
        λ safe.
            replace_game-IsSafe name (query_servers query fields limit skip game) games
              (query_servers-IsSafe query fields limit skip game (h safe)) safe,
      )
  list_servers-IsSound Allowed Unread games name game query fields none skip a u h = u (inl refl)
  list_servers-IsSound Allowed Unread games name game query fields (some limit) none a u h =
      u (inr refl)

  api_servers-IsSound :
      (games : List Game) (name : Bytes) (game : Game) (method : Method) (path : Bytes)
      (params : List Param) (Allowed : Type 0)
      → path ≡ codes "/api/servers"
      → (IsListing method path → Allowed)
      → (All IsSafe games → IsSafe game)
      → IsSound Allowed
          (IsUnread junk method path params)
          games
          (api_servers accepts junk get_servers games name game method params)
  unfolding api_servers
  api_servers-IsSound games name game get path params Allowed p a h =
      list_servers-IsSound Allowed (IsUnread junk get path params) games name game _ _
        (number_or junk 100 (find_param (codes "limit") params))
        (number_or junk 0 (find_param (codes "skip") params)) (a (p, refl))
        (λ u. record { listing = (p, refl); unread = u }) h
  api_servers-IsSound games name game _ path params Allowed p a h = same-IsKept Allowed games

  change_server-IsSound :
      (Allowed Unread : Type 0) (games : List Game) (name : Bytes) (game : Game) (method : Method)
      (params : List Param) (ip : Bytes) (port : ℕ)
      → ((method ≡ post) ⊎ (method ≡ delete) → Allowed)
      → (All IsSafe games → IsSafe game)
      → IsSound Allowed Unread games
          (change_server accepts junk get_servers games name game method params ip port)
  unfolding change_server
  change_server-IsSound Allowed Unread games name game post params ip port a h =
      after_method-IsSound Allowed Unread name games (codes "added server")
        (add_or_update_server accepts (incoming_server ip port params) game) (a (inl refl))
        (λ safe. add_or_update_server-IsSafe accepts _ game (h safe))
  change_server-IsSound Allowed Unread games name game delete params ip port a h =
      after_method-IsSound Allowed Unread name games (codes "removed server")
        (remove_servers accepts ((ip, port % 2 ^ 16) ∷ []) game) (a (inr refl))
        (λ safe. remove_servers-IsSafe accepts _ game (h safe))
  change_server-IsSound Allowed Unread games name game _ params ip port a h =
      same-IsKept Allowed games

  api_server-IsSound :
      (Allowed Unread : Type 0) (games : List Game) (name : Bytes) (game : Game) (method : Method)
      (params : List Param) (ip port : Option Param)
      → ((i : Param) → ip ≡ some i → (method ≡ post) ⊎ (method ≡ delete) → Allowed)
      → (All IsSafe games → IsSafe game)
      → IsSound Allowed Unread games
          (api_server accepts junk get_servers games name game method params ip port)
  unfolding api_server
  api_server-IsSound Allowed Unread games name game method params none port a h =
      same-IsKept Allowed games
  api_server-IsSound Allowed Unread games name game method params (some ip) none a h =
      same-IsKept Allowed games
  api_server-IsSound Allowed Unread games name game method params (some ip) (some port) a h =
      elim (Option-cases (parse_int junk port.value)) [
        | inl e ↦ rw (e, api_server) (same-IsKept Allowed games)
        | inr (number, e) ↦
            rw (e, api_server)
              (change_server-IsSound Allowed Unread games name game method params ip.value number
                (a ip refl) h)
      ]

  either-IsSound :
      (Allowed Unread : Type 0) (games : List Game) (b : Bool) (x y : Outcome)
      → (b ≡ true → IsSound Allowed Unread games x)
      → IsSound Allowed Unread games y
      → IsSound Allowed Unread games (if b then x else y)
  either-IsSound Allowed Unread games true x y hx hy = hx refl
  either-IsSound Allowed Unread games false x y hx hy = hy

  api_of_game-IsSound :
      (games : List Game) (method : Method) (path : Bytes) (params : List Param) (name : Param)
      → find_param (codes "game") params ≡ some name
      → IsSound
          (IsGameCall games method path params)
          (IsUnread junk method path params)
          games
          (api_of_game accepts junk get_servers games method path params name.value)
  unfolding api_of_game
  api_of_game-IsSound games method path params name named =
      elim (Option-cases (find_game name.value games)) [
        | inl e ↦ rw (e, api_of_game) (same-IsKept _ games)
        | inr (game, e) ↦
            rw (e, api_of_game)
              (either-IsSound _ _ games (equal path (codes "/api/servers")) _ _
                (λ p.
                  api_servers-IsSound games name.value game method path params _
                    ((equal_iff path (codes "/api/servers")).0 p)
                    (λ listing. record {
                      name = name;
                      named = named;
                      game = game;
                      there = e;
                      calls = inr listing;
                    })
                    (find_game-IsSafe name.value game games e))
                (either-IsSound _ _ games (equal path (codes "/api/server")) _ _
                  (λ p.
                    api_server-IsSound _ _ games name.value game method params _ _
                      (λ ip addressed changes. record {
                        name = name;
                        named = named;
                        game = game;
                        there = e;
                        calls = inl (record {
                          at_server = (equal_iff path (codes "/api/server")).0 p;
                          changes = changes;
                          ip = ip;
                          addressed = addressed;
                        });
                      })
                      (find_game-IsSafe name.value game games e))
                  (same-IsKept _ games)))
      ]

  -- Only a `POST` or `DELETE` request for `/api/server` with an address, or a `GET` request for
  -- `/api/servers`, with a game that is there, sends something to a database, and what is sent stays
  -- safe.
  pub handle_api-IsSound :
      (games : List Game) (method : Method) (path : Bytes) (params : List Param)
      → IsSound
          (IsGameCall games method path params)
          (IsUnread junk method path params)
          games
          (handle_api accepts junk get_servers games method path params)
  unfolding handle_api
  handle_api-IsSound games method path params =
      either-IsSound _ _ games (equal path (codes "/api/games")) _ _
        (λ p. api_games-IsSound _ _ games method)
        (elim (Option-cases (find_param (codes "game") params)) [
          | inl e ↦ rw (e, handle_api) (same-IsKept _ games)
          | inr (name, e) ↦ rw (e, handle_api) (api_of_game-IsSound games method path params name e)
        ])
