-- ===== src/Game/Data.antt =====
-- The types of emulator/game.h, and the constructor and the lookups of `Game`.
use gamespy_emulator.Prelude.{
  ◌≡◌, ◌⊎◌, refl, inl, inr, ℕ, ◌+◌, ◌*◌, ◌%◌, ◌^◌, Bool, true, false, Bytes, List, [], ◌∷◌, ◌++◌,
  Option, none, some, ltb, if◌then◌else◌, length, equal, codes, to_lower,
}
use gamespy_emulator.Utils.Number.{decimal}
use gamespy_emulator.Qr.{Map}

pub data Send : Type 0 where
  as_string as_byte as_short : Send

pub data Store : Type 0 where
  as_integer as_real as_text : Store

pub record GameKey : Type 0 where
  pub name : Bytes
  pub send : Send
  pub store : Store
  pub type : Bytes

pub data Availability : Type 0 where
  available disabled_temporary disabled_permanently : Availability

pub data MissingKeyPolicy : Type 0 where
  ignore add_as_string : MissingKeyPolicy

pub record GameData : Type 0 where
  pub name : Bytes
  pub secret_key : Bytes
  pub query_port : ℕ
  pub availability : Availability
  pub backend : ℕ
  pub keys : List GameKey
  pub missing_key_policy : MissingKeyPolicy

-- `GameKey{ name }`
abbrev pub text_key : Bytes → GameKey
text_key name = record { name = name; send = as_string; store = as_text; type = [] }

abbrev number_key : Bytes → Bytes → GameKey
number_key name type = record { name = name; send = as_byte; store = as_integer; type = type }

abbrev pub common_keys : List GameKey
common_keys =
    text_key (codes "country")
    ∷ text_key (codes "gamemode")
    ∷ text_key (codes "gametype")
    ∷ text_key (codes "gamever")
    ∷ text_key (codes "hostname")
    ∷ text_key (codes "mapname")
    ∷ number_key (codes "maxplayers") (codes "integer")
    ∷ number_key (codes "numplayers") (codes "integer")
    ∷ number_key (codes "password") (codes "boolean")
    ∷ []

-- `ServerData<StringType>`, for either string type.
pub record ServerData : Type 0 where
  pub last_update : ℕ
  pub public_ip : Bytes
  pub public_port : ℕ
  pub private_ip : Bytes
  pub private_port : ℕ
  pub icmp_ip : Bytes
  pub values : Map
  pub rules : Bytes

-- The actions that an authorizer tells apart.
pub data Action : Type 0 where
  sqlite_read sqlite_select sqlite_function sqlite_other : Action

-- A scoped authorizer: whether an action with its two details on a database is allowed.
abbrev pub Authorizer : Type 0
Authorizer = Action → Bytes → Bytes → Bytes → Bool

-- What is sent to SQLite: the columns of the table, new columns, a row, a deletion, and a query
-- under the authorizer that is set for it.
pub data Statement : Type 0 where
  create_table : List (Bytes × Store) → Statement
  add_columns : List Bytes → Statement
  insert_row : Bytes → ℕ → List (Bytes × Bytes) → Statement
  delete_row : Bytes → ℕ → Statement
  select_rows : Authorizer → Bytes → Statement

-- The two signals.
pub data Signal : Type 0 where
  server_added : ServerData → Signal
  server_removed : Bytes → ℕ → Signal

-- A `Game`, with the statements sent to its database and the signals fired so far.
pub record Game : Type 0 where
  pub game_data : GameData
  pub params : List GameKey
  pub popular_values : List Bytes
  pub sent : List Statement
  pub fired : List Signal

-- A method that changes an object returns or throws; the object stays as it is then.
pub data Run {ℓ} (A : Type ℓ) : Type ℓ where
  returned threw : A → Run A

-- The object after the method.
abbrev pub after_run {ℓ} : {A : Type ℓ} → Run A → A
after_run (returned a) = a
after_run (threw a) = a

pub Run-cases {ℓ} :
    {A : Type ℓ} (r : Run A) → ((a : A) × (r ≡ returned a)) ⊎ ((a : A) × (r ≡ threw a))
Run-cases (returned a) = inl (a, refl)
Run-cases (threw a) = inr (a, refl)

-- The constructor.
unfoldable pub make : GameData → Option Game
make d =
    if ltb 254 (length d.keys)
    then none
    else if equal d.secret_key []
    then none
    else some (record { game_data = d; params = []; popular_values = []; sent = []; fired = [] })

abbrev pub find_key : Bytes → List GameKey → Option GameKey
find_key k [] = none
find_key k (key ∷ keys) = if equal key.name k then some key else find_key k keys

-- `m_Params.contains`
abbrev pub has_key : Bytes → List GameKey → Bool
has_key k [] = false
has_key k (key ∷ keys) = if equal key.name k then true else has_key k keys

-- `GetParamSendType`
unfoldable pub get_param_send_type : Game → Bytes → Send
get_param_send_type game k = elim (find_key k game.params) [
  | none ↦ as_string
  | some key ↦ key.send
]

-- `GetParamStoreType`
unfoldable pub get_param_store_type : Game → Bytes → Store
get_param_store_type game k = elim (find_key k game.params) [
  | none ↦ as_text
  | some key ↦ key.store
]

-- `SetPopularValues`
unfoldable pub set_popular_values : List Bytes → Game → Run Game
set_popular_values values game =
    if ltb 255 (length values)
    then threw game
    else returned (record {
      game_data = game.game_data;
      params = game.params;
      popular_values = values;
      sent = game.sent;
      fired = game.fired;
    })

-- The loop of `GetMasterServer`; the names are ASCII, so no character is negative.
unfoldable pub hash_name : ℕ → Bytes → ℕ
hash_name hashcode [] = hashcode
hash_name hashcode (c ∷ name) =
    hash_name ((hashcode * 0x9CCF9319 % 2 ^ 32 + to_lower c) % 2 ^ 32) name

-- `GetMasterServer`
unfoldable pub get_master_server : Game → Bytes
get_master_server game =
    game.game_data.name
    ++ codes ".ms"
    ++ decimal (hash_name 0 game.game_data.name % 20)
    ++ codes ".gamespy.com"
