-- ===== src/Admin/Client.antt =====
-- `AdminServer`'s constructor and `AdminClient::Run` of emulator/admin.cpp: who may send requests,
-- and which handler gets them.
use gamespy_emulator.Admin.Api.{
  Method, Param, unauthorized, log_in, Outcome, undefined, response, handle_api,
}
use gamespy_emulator.Admin.Files.{Files, handle_file_lookup}
use gamespy_emulator.Game.Data.{Game, ServerData, Statement}
use gamespy_emulator.Prelude.{
  ℕ, Bool, true, false, not, ◌&&◌, ◌||◌, Option, none, some, Bytes, List, [], ◌++◌, codes,
  if◌then◌else◌, equal, starts_with,
}
use gamespy_emulator.Utils.Password.{Base64, base64_encode}

-- What the constructor sets: `m_Auth`, and whether only the loopback address is bound.
pub record Server : Type 0 where
  pub auth : Bytes
  pub loopback_only : Bool

unfoldable pub make : Base64 → Bytes → Bytes → Server
make base64 username password =
    if equal username [] || equal password []
    then record { auth = []; loopback_only = true }
    else record {
      auth = codes "Basic " ++ base64_encode base64 (username ++ codes ":" ++ password);
      loopback_only = false;
    }

-- The target of a request, as Boost.URL parses it.
pub record Target : Type 0 where
  pub path : Bytes
  pub params : List Param

pub record Request : Type 0 where
  pub method : Method
  pub authorization : Option Bytes
  pub target : Option Target

-- The address of a client: the loopback address, or that of the host itself.
pub record Address : Type 0 where
  pub is_loopback : Bool
  pub is_local : Bool

abbrev pub is_host : Address → Bool
is_host address = address.is_loopback || address.is_local

abbrev pub has_auth : Bytes → Option Bytes → Bool
has_auth auth none = false
has_auth auth (some value) = equal value auth

module _ (accepts : List Statement → Statement → Bool) (junk : ℕ)
    (get_servers : Game → Bytes → List Bytes → ℕ → ℕ → List ServerData) (files : Files) where
  -- The result of the parse is read whether there is one or not.
  unfoldable pub dispatch : List Game → Method → Option Target → Outcome
  dispatch games method none = undefined
  dispatch games method (some target) =
      if starts_with (codes "/api/") target.path
      then handle_api accepts junk get_servers games method target.path target.params
      else handle_file_lookup files games target.path

  -- `Run`, for a request that was read.
  unfoldable pub run : Server → List Game → Address → Request → Outcome
  run server games address request =
      if not (is_host address) && not (has_auth server.auth request.authorization)
      then response games unauthorized log_in
      else dispatch games request.method request.target
