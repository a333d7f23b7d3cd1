-- ===== src/Redirect.antt =====
-- redirect/main.cpp: which lookups of host names are redirected, and where to. The functions of
-- Windows and of Detours are parameters, and a text of wide characters is its UTF-8; loading the
-- other DLLs is left out.
pub mod Detect
pub mod Names
mod Tests
use gamespy_emulator.Prelude.{
  ℕ, Bool, true, false, not, ◌||◌, Option, none, some, Bytes, [], ◌∷◌, ◌++◌, List, codes, equal,
  starts_with, if◌then◌else◌,
}

-- `strstr`, whether it finds the text.
unfoldable pub has_text : Bytes → Bytes → Bool
has_text text [] = starts_with text []
has_text text (c ∷ cs) = starts_with text (c ∷ cs) || has_text text cs

unfoldable pub should_redirect : Option Bytes → Bool
unfolding has_text
should_redirect none = false
should_redirect (some name) = has_text (codes "gamespy") name || has_text (codes "dice.se") name

-- The `hostent` of a redirected name.
pub record Host : Type 0 where
  pub name : Bytes
  pub address : Bytes

-- The local variable `host` of a thread is initialised by the first redirected name.
abbrev first_name : Option Bytes → Bytes → Bytes
first_name none name = name
first_name (some host) name = host

-- `redirect_gethostbyname`, with the variable `host` of the thread.
unfoldable pub redirect_gethostbyname :
    (Option Bytes → Option Host) → Bytes → Option Bytes → Option Bytes → Option Host × Option Bytes
unfolding should_redirect
redirect_gethostbyname gethostbyname address none host = (gethostbyname none, host)
redirect_gethostbyname gethostbyname address (some name) host =
    if should_redirect (some name)
    then (
      some (record { name = first_name host name; address = address }),
      some (first_name host name),
    )
    else (gethostbyname (some name), host)

-- `redirect_getaddrinfo`; the service and the hints are passed on as they are.
unfoldable pub redirect_getaddrinfo {ℓ} :
    {R : Type ℓ} → (Option Bytes → R) → (Bytes → Option Bytes) → R → Bytes → Option Bytes → R
unfolding should_redirect
redirect_getaddrinfo getaddrinfo inet_ntop eai_fail address name =
    if should_redirect name
    then elim (inet_ntop address) [ none ↦ eai_fail | some text ↦ getaddrinfo (some text) ]
    else getaddrinfo name

-- The datagram that `detect_gamespy` broadcasts.
abbrev pub available_packet : Bytes → Bytes
available_packet game = (9 ∷ 0 ∷ 0 ∷ 0 ∷ 0 ∷ []) ++ game ++ 0 ∷ []

-- The name of the game and the address, as the command line sets them.
pub record Settings : Type 0 where
  pub game : Bytes
  pub address : Bytes

-- An argument and the one behind it; none where the lookup of the address throws.
abbrev set_argument : (Bytes → Option Bytes) → Bytes → Bytes → Settings → Option Settings
set_argument resolve argument value s =
    if equal argument (codes "+gamename")
    then some (record { game = value; address = s.address })
    else if equal argument (codes "+gamespy")
    then elim (resolve value) [
      | none ↦ none
      | some address ↦ some (record { game = s.game; address = address })
    ]
    else some s

unfoldable pub read_arguments : (Bytes → Option Bytes) → List Bytes → Settings → Option Settings
read_arguments resolve [] s = some s
read_arguments resolve (argument ∷ []) s = some s
read_arguments resolve (argument ∷ value ∷ rest) s = elim (set_argument resolve argument value s) [
  | none ↦ none
  | some s' ↦ read_arguments resolve (value ∷ rest) s'
]

-- What `detect_gamespy` comes to: an exception, no answer, or the address that answers.
pub data Detected : Type 0 where
  no_socket silent : Detected
  from : Bytes → Detected

pub data Outcome : Type 0 where
  threw : Outcome
  ended : Bool → Bytes → Outcome

abbrev pub any_address : Bytes
any_address = 0 ∷ 0 ∷ 0 ∷ 0 ∷ []

-- `detour_gethostbyname`: the exchange of a datagram, the answer to the message box, and whether
-- the detours are committed are parameters.
unfoldable pub detour_gethostbyname :
    Bool → (Bytes → Option Bytes) → (Bytes → Detected) → Bool → Bool → Bytes → List Bytes → Outcome
unfolding read_arguments
detour_gethostbyname started resolve exchange confirmed committed default_game arguments =
    if not started
    then threw
    else elim (read_arguments resolve arguments
        (record { game = default_game; address = any_address })) [
          | none ↦ threw
          | some s ↦
              if equal s.address any_address
              then elim (exchange (available_packet s.game)) [
                | no_socket ↦ threw
                | silent ↦ ended confirmed any_address
                | from address ↦ ended committed address
              ]
              else ended committed s.address
        ]
