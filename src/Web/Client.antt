-- ===== src/Web/Client.antt =====
-- `HttpClient::Run` of emulator/http.client.cpp: the one request of a connection, and the host that
-- chooses what is written back.
use gamespy_emulator.Players.{PlayerDb}
use gamespy_emulator.Prelude.{
  ℕ, Bool, true, false, not, Option, none, some, Bytes, codes, if◌then◌else◌, map, equal, to_lower,
  arith, Bool-cases,
}
use gamespy_emulator.Web.PageLaws.{IsAnswer, handle_bf2web-IsAnswer}
use gamespy_emulator.Web.Pages.{Uri, handle_bf2web}

-- A request that was read: Boost.URL parses the target or does not.
pub record Request : Type 0 where
  pub is_get : Bool
  pub target : Option Uri
  pub host : Bytes

-- What is written to the socket.
pub data Reply : Type 0 where
  silent image : Reply
  page_body : Bytes → Reply

-- The file `http/image_english.png` opens or does not.
abbrev pub image_reply : Bool → Uri → Reply
image_reply opens uri =
    if equal uri.encoded_path (codes "/image_english.png")
    then if opens then image else silent
    else silent

module _ (now junk : ℕ) (opens : Bool) (db : PlayerDb) where
  open db use {Store}

  -- The page of `bf2web.gamespy.com`; `none` where the code reads a player that is not there.
  abbrev pub write_page : Option Bytes → Option Reply
  write_page none = none
  write_page (some body) = some (page_body body)

  -- The chain of tests of the host.
  unfoldable pub dispatch : Store → Bytes → Uri → Option Reply
  dispatch s host uri =
      if equal host (codes "eapusher.dice.se")
      then some (image_reply opens uri)
      else if equal host (codes "bf2web.gamespy.com")
      then write_page (handle_bf2web now junk db s uri)
      else some silent

  abbrev pub parsed : Store → Bytes → Option Uri → Option Reply
  parsed s host none = some silent
  parsed s host (some uri) = dispatch s (map to_lower host) uri

  -- `Run`; `none` is a request that was not read.
  unfoldable pub run : Store → Option Request → Option Reply
  run s none = some silent
  run s (some r) = if not r.is_get then some silent else parsed s r.host r.target

  -- What a reply may be.
  abbrev pub IsReply : Option Reply → Type 0
  IsReply none = ⊥
  IsReply (some (page_body body)) = IsAnswer (some body)
  IsReply (some _) = Unit

  write_page-IsReply : (answer : Option Bytes) → IsAnswer answer → IsReply (write_page answer)
  write_page-IsReply none (s, e, h) = ground arith
  write_page-IsReply (some body) h = h

  either-IsReply :
      (b : Bool) (x y : Option Reply) → IsReply x → IsReply y → IsReply (if b then x else y)
  either-IsReply true x y hx hy = hx
  either-IsReply false x y hx hy = hy

  image_reply-IsReply : (uri : Uri) → IsReply (some (image_reply opens uri))
  image_reply-IsReply uri =
      ground
        (arith, Bool-cases opens, Bool-cases (equal uri.encoded_path (codes "/image_english.png")))

  dispatch-IsReply : (s : Store) (host : Bytes) (uri : Uri) → IsReply (dispatch s host uri)
  unfolding dispatch
  dispatch-IsReply s host uri =
      either-IsReply (equal host (codes "eapusher.dice.se")) _ _ (image_reply-IsReply uri) (
        either-IsReply (equal host (codes "bf2web.gamespy.com")) _ _
          (write_page-IsReply _ (handle_bf2web-IsAnswer now junk db s uri)) tt)

  parsed-IsReply : (s : Store) (host : Bytes) (uri : Option Uri) → IsReply (parsed s host uri)
  parsed-IsReply s host none = tt
  parsed-IsReply s host (some uri) = dispatch-IsReply s (map to_lower host) uri

  -- Whatever is received, the client reads no player that the database did not return, and a page
  -- that it writes is empty, or `OK`, or ends in a line that carries the count of the characters
  -- before it that are neither tabs nor newlines.
  pub run-IsReply : (s : Store) (request : Option Request) → IsReply (run s request)
  unfolding run
  run-IsReply s none = tt
  run-IsReply s (some r) = either-IsReply (not r.is_get) _ _ tt (parsed-IsReply s r.host r.target)
