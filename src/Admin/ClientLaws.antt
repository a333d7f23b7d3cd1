-- ===== src/Admin/ClientLaws.antt =====
-- `AdminClient::Run`: what a request reaches, and who has to send it.
use gamespy_emulator.Admin.Api.{
  Method, unauthorized, log_in, file, Outcome, undefined, exception, response, handle_api,
}
use gamespy_emulator.Admin.ApiLaws.{IsGameCall, IsUnread, IsKept, IsSound, handle_api-IsSound}
use gamespy_emulator.Admin.Client.{
  Server, Target, Request, Address, is_host, has_auth, dispatch, run,
}
use gamespy_emulator.Admin.Files.{
  FilePath, Files, mismatch, is_nil, relative, send_file, look_up, handle_file_lookup,
}
use gamespy_emulator.Game.Data.{Game, ServerData, Statement}
use gamespy_emulator.Prelude.{
  ℕ, ◌≡◌, ◌≢◌, ◌⊎◌, refl, ap, Bool, true, false, not, ◌&&◌, Option, none, some, Bytes, List, [],
  ◌∷◌, ◌++◌, codes, equal, equal_iff, starts_with, inl, inr, Bool-cases, Option-cases, arith,
}

mismatch-prefix :
    (root path : FilePath)
    → is_nil (mismatch root path) ≡ true
    → (rest : FilePath) × (path ≡ root ++ rest)
unfolding mismatch
mismatch-prefix [] path h = (path, refl)
mismatch-prefix (r ∷ root) [] h = ground arith
mismatch-prefix (r ∷ root) (p ∷ path) h = elim (Bool-cases (equal r p)) [
  | inl same ↦
      let (rest, e) = mismatch-prefix root path (rw (same, mismatch) at h) in
      (rest, rw ((equal_iff r p).0 same, e) refl)
  | inr differs ↦ ground (arith, rw (differs, mismatch) at h)
]

-- The path is in the directory of the files, and there is such a file.
pub record IsInside (files : Files) (path : FilePath) : Type 0 where
  pub rest : FilePath
  pub below : path ≡ files.root ++ rest
  pub resolved : files.root ≢ []
  pub there : files.exists path ≡ true

-- What a request may lead to: no change but by `Allowed`, and no file but of the directory.
abbrev pub IsContained : Type 0 → Type 0 → Files → List Game → Outcome → Type 0
IsContained Allowed Unread files games undefined = Unread
IsContained Allowed Unread files games (exception games') = IsKept Allowed games games'
IsContained Allowed Unread files games (response games' status (file path mime)) =
    IsInside files path × (games' ≡ games)
IsContained Allowed Unread files games (response games' status _) = IsKept Allowed games games'

IsSound→IsContained :
    (Allowed Unread : Type 0) (files : Files) (games : List Game) (o : Outcome)
    → IsSound Allowed Unread games o
    → IsContained Allowed Unread files games o
IsSound→IsContained Allowed Unread files games undefined h = h
IsSound→IsContained Allowed Unread files games (exception games') h = h
IsSound→IsContained Allowed Unread files games (response games' status (file path mime)) h =
    absurd h
IsSound→IsContained Allowed Unread files games (response games' status _) h = h

is_nil-false : (path : FilePath) → is_nil path ≡ false → path ≢ []
is_nil-false [] h = cc
is_nil-false (p ∷ ps) h = λ e. cc

module _ (Allowed Unread : Type 0) (files : Files) (games : List Game) where
  send_file-IsContained :
      (path rest : FilePath)
      → path ≡ files.root ++ rest
      → files.root ≢ []
      → IsContained Allowed Unread files games (send_file files games path)
  unfolding send_file
  send_file-IsContained path rest below resolved = elim (Bool-cases (files.exists path)) [
    | inr missing ↦ rw missing (inl refl, λ h. h)
    | inl there ↦ elim (Bool-cases (files.opens path)) [
      | inl opens ↦
          rw (there, opens)
            (record { rest = rest; below = below; resolved = resolved; there = there }, refl)
      | inr fails ↦ rw (there, fails) (inl refl, λ h. h)
    ]
  ]

  look_up-IsContained :
      (path : FilePath) (failed : Bool)
      → IsContained Allowed Unread files games (look_up files games (path, failed))
  unfolding look_up
  look_up-IsContained path true = (inl refl, λ h. h)
  look_up-IsContained path false = elim (Bool-cases (is_nil files.root)) [
    | inl empty ↦ rw empty (inl refl, λ h. h)
    | inr resolved ↦ elim (Bool-cases (is_nil (mismatch files.root path))) [
      | inl inside ↦
          let (rest, below) = mismatch-prefix files.root path inside in
          rw (resolved, inside)
            (send_file-IsContained path rest below (is_nil-false files.root resolved))
      | inr outside ↦ rw (resolved, outside) (inl refl, λ h. h)
    ]
  ]

  handle_file_lookup-IsContained :
      (path : Bytes) → IsContained Allowed Unread files games (handle_file_lookup files games path)
  unfolding handle_file_lookup
  handle_file_lookup-IsContained path = elim (Option-cases (relative path)) [
    | inl e ↦ rw (e, handle_file_lookup) (inl refl, λ h. h)
    | inr (name, e) ↦
        rw (e, handle_file_lookup)
          (look_up-IsContained (files.resolve name).0 (files.resolve name).1)
  ]

-- The request comes from the host itself, or carries the authorization of the server.
abbrev pub IsTrusted : Server → Address → Request → Type 0
IsTrusted server address request =
    (is_host address ≡ true) ⊎ (request.authorization ≡ some server.auth)

-- The request is one that reaches the database of a game.
abbrev pub Calls : List Game → Request → Type 0
Calls games request =
    (t : Target) × (request.target ≡ some t) × IsGameCall games request.method t.path t.params

-- The request has no target, or is a listing with a limit or skip that is no number.
abbrev pub Unreadable : ℕ → Request → Type 0
Unreadable junk request =
    (request.target ≡ none)
    ⊎ ((t : Target) × (request.target ≡ some t) × IsUnread junk request.method t.path t.params)

has_auth-some : (auth : Bytes) (o : Option Bytes) → has_auth auth o ≡ true → o ≡ some auth
has_auth-some auth none h = ground arith
has_auth-some auth (some value) h = ap some ((equal_iff value auth).0 h)

has_auth-IsTrusted :
    (server : Server) (address : Address) (request : Request)
    → (not (is_host address) && not (has_auth server.auth request.authorization)) ≡ false
    → IsTrusted server address request
has_auth-IsTrusted server address request h = elim (Bool-cases (is_host address)) [
  | inl host ↦ inl host
  | inr remote ↦ elim (Bool-cases (has_auth server.auth request.authorization)) [
    | inl given ↦ inr (has_auth-some server.auth request.authorization given)
    | inr missing ↦ ground (arith, rw (remote, missing) at h)
  ]
]

IsKept-map :
    {A B : Type 0} (games games' : List Game)
    → (A → B)
    → IsKept A games games'
    → IsKept B games games'
IsKept-map games games' f (inl same, safe) = (inl same, safe)
IsKept-map games games' f (inr a, safe) = (inr (f a), safe)

IsContained-map :
    {A B C D : Type 0} (files : Files) (games : List Game) (o : Outcome)
    → (A → B)
    → (C → D)
    → IsContained A C files games o
    → IsContained B D files games o
IsContained-map files games undefined f g h = g h
IsContained-map files games (exception games') f g h = IsKept-map games games' f h
IsContained-map files games (response games' status (file path mime)) f g h = h
IsContained-map files games (response games' status _) f g h = IsKept-map games games' f h

module _ (accepts : List Statement → Statement → Bool) (junk : ℕ)
    (get_servers : Game → Bytes → List Bytes → ℕ → ℕ → List ServerData) (files : Files) where
  dispatch-IsContained :
      (games : List Game) (method : Method) (target : Option Target)
      → IsContained
          ((t : Target) × (target ≡ some t) × IsGameCall games method t.path t.params)
          ((target ≡ none)
            ⊎ ((t : Target) × (target ≡ some t) × IsUnread junk method t.path t.params))
          files
          games
          (dispatch accepts junk get_servers files games method target)
  unfolding dispatch
  dispatch-IsContained games method none = inl refl
  dispatch-IsContained games method (some t) =
      elim (Bool-cases (starts_with (codes "/api/") t.path)) [
        | inl api ↦ rw api (
            IsContained-map {A = IsGameCall games method t.path t.params}
              {B = (t' : Target) × (some t ≡ some t') × IsGameCall games method t'.path t'.params}
              {C = IsUnread junk method t.path t.params}
              {D = (some t ≡ none)
                ⊎ ((t' : Target) × (some t ≡ some t') × IsUnread junk method t'.path t'.params)}
              files games _ (λ call. (t, refl, call)) (λ u. inr (t, refl, u))
              (IsSound→IsContained (IsGameCall games method t.path t.params)
                (IsUnread junk method t.path t.params) files games
                (handle_api accepts junk get_servers games method t.path t.params)
                (handle_api-IsSound accepts junk get_servers games method t.path t.params)))
        | inr page ↦ rw page (handle_file_lookup-IsContained _ _ files games t.path)
      ]

  -- A request is refused and changes nothing, or it comes from the host itself or carries the
  -- authorization. Then it sends something to the database of a game that is there only if it is a
  -- `POST` or `DELETE` request for `/api/server` with an address, or a `GET` request for
  -- `/api/servers`; what was sent stays safe, a query being under the authorizer that only reads; a
  -- file that is served exists below the directory of the files; and a value that is not there is
  -- read only for a request without a target or a listing with a limit or skip that is no number.
  pub run-IsContained :
      (server : Server) (games : List Game) (address : Address) (request : Request)
      → (run accepts junk get_servers files server games address request
          ≡ response games unauthorized log_in)
        ⊎ (IsTrusted server address request
            × IsContained
                (Calls games request)
                (Unreadable junk request)
                files
                games
                (run accepts junk get_servers files server games address request))
  unfolding run
  run-IsContained server games address request =
      elim (Bool-cases
        (not (is_host address) && not (has_auth server.auth request.authorization))) [
          | inl refuses ↦ inl (rw refuses refl)
          | inr passes ↦ inr (
            has_auth-IsTrusted server address request passes,
            rw passes (dispatch-IsContained games request.method request.target),
          )
        ]
