-- ===== src/Web/PageLaws.antt =====
-- `HttpClient::HandleBF2Web`: what holds of the answer whatever page is asked for.
use gamespy_emulator.Players.{PlayerDb}
use gamespy_emulator.Prelude.{
  ℕ, ◌≡◌, ◌⊎◌, refl, Bool, true, false, Option, none, some, inl, inr, Bytes, List, [], ◌∷◌, codes,
  if◌then◌else◌, ◌==◌, ltb, length, map, equal, Bool-cases, Option-cases, to_lower,
}
use gamespy_emulator.Web.Counts.{
  IsCounted, IsClean, AreClean, IsCounting, visible, append-IsCounting, to_string-IsCounted,
}
use gamespy_emulator.Web.Pages.{
  Uri, find_param, pid_param, two_lines, error_page, error_text, dated_error, awards_info,
  backend_info, leader_board, player_info, rank_info, unlocks_info, player_id, page, handle_bf2web,
}
use gamespy_emulator.Web.Response.{
  Response, Element, append, header, data_line, response, set_error,
}
use gamespy_emulator.Web.Unlocks.{UnlockInfo, unlocks, append_unlocks, append_states}

-- The names and descriptions have no tabs and no newlines.
abbrev AreCleanUnlocks : List UnlockInfo → Type 0
AreCleanUnlocks [] = Unit
AreCleanUnlocks (u ∷ us) = IsClean u.name × IsClean u.desc × AreCleanUnlocks us

unlocks-AreCleanUnlocks : AreCleanUnlocks unlocks
unfolding visible
unlocks-AreCleanUnlocks = search

append_unlocks-IsCounting :
    (us : List UnlockInfo) (r : Response)
    → AreCleanUnlocks us
    → IsCounting r
    → IsCounting (append_unlocks us r)
unfolding append_unlocks
append_unlocks-IsCounting [] r clean h = h
append_unlocks-IsCounting (u ∷ us) r (name, desc, later) h =
    append_unlocks-IsCounting us _ later (append-IsCounting r data_line _ (name, (desc, tt)) h)

append_states-IsCounting :
    (us : List UnlockInfo) (r : Response) → IsCounting r → IsCounting (append_states us r)
unfolding append_states visible
append_states-IsCounting [] r h = h
append_states-IsCounting (u ∷ us) r h =
    append_states-IsCounting us _ (append-IsCounting r data_line _ (refl, tt) h)

response-IsCounting : (junk : ℕ) → IsCounting (response junk)
unfolding visible
response-IsCounting junk = refl

-- An answer: no player is read that the database did not return, and the page is empty, the plain
-- `OK`, or a counted response.
abbrev pub IsAnswer : Option Bytes → Type 0
IsAnswer answer = (s : Bytes) × (answer ≡ some s) × ((s ≡ []) ⊎ ((s ≡ codes "OK") ⊎ IsCounted s))

counted-IsAnswer : (s : Bytes) → IsCounted s → IsAnswer (some s)
counted-IsAnswer s h = (s, refl, inr (inr h))

either-IsAnswer :
    (b : Bool) (x y : Option Bytes) → IsAnswer x → IsAnswer y → IsAnswer (if b then x else y)
either-IsAnswer true x y hx hy = hx
either-IsAnswer false x y hx hy = hy

module _ (now junk : ℕ) where
  two_lines-IsCounting :
      (names values : List Element)
      → AreClean names
      → AreClean values
      → IsCounting (two_lines now junk names values)
  two_lines-IsCounting names values hn hv =
      append-IsCounting (append (response junk) header names) data_line values hv
        (append-IsCounting (response junk) header names hn (response-IsCounting junk))

  error_page-IsCounted :
      (code : ℕ) (names values : List Element)
      → AreClean names
      → AreClean values
      → IsCounted (error_page now junk code names values)
  unfolding visible
  error_page-IsCounted code names values hn hv = to_string-IsCounted _ (
      append-IsCounting (append (set_error (response junk) true code) header names) data_line values
        hv (append-IsCounting (set_error (response junk) true code) header names hn refl))

  error_text-IsCounted : (what : Bytes) → IsClean what → IsCounted (error_text now junk what)
  unfolding visible
  error_text-IsCounted what h = error_page-IsCounted 0 _ _ (refl, tt) (h, tt)

  dated_error-IsCounted :
      (code : ℕ) (what : Bytes) → IsClean what → IsCounted (dated_error now junk code what)
  unfolding visible
  dated_error-IsCounted code what h = error_page-IsCounted code _ _ (refl, (refl, tt)) (h, tt)

  awards_info-IsCounted : (pid : ℕ) → IsCounted (awards_info now junk pid)
  unfolding awards_info visible
  awards_info-IsCounted pid = to_string-IsCounted _ (
      append-IsCounting _ header _ (refl, (refl, (refl, (refl, tt))))
        (two_lines-IsCounting _ _ (refl, (refl, tt)) tt))

  backend_info-IsCounted : IsCounted (backend_info now junk)
  unfolding backend_info visible
  backend_info-IsCounted = to_string-IsCounted _ (
      append_unlocks-IsCounting unlocks _ unlocks-AreCleanUnlocks (
        append-IsCounting _ header _ (refl, (refl, (refl, (refl, tt))))
          (two_lines-IsCounting _ _ (refl, (refl, tt)) (refl, tt))))

  leader_board-IsCounted : IsCounted (leader_board now junk)
  unfolding leader_board visible
  leader_board-IsCounted = to_string-IsCounted _ (two_lines-IsCounting _ _ (refl, (refl, tt)) tt)

  either-IsCounted :
      (b : Bool) (x y : Bytes) → IsCounted x → IsCounted y → IsCounted (if b then x else y)
  either-IsCounted true x y hx hy = hx
  either-IsCounted false x y hx hy = hy

  player_info-IsCounted :
      (pid : ℕ) (info : Option Bytes) → IsCounted (player_info now junk pid info)
  unfolding player_info visible
  player_info-IsCounted pid none =
      either-IsCounted (pid == 0) _ _ (dated_error-IsCounted 107 _ refl)
        (dated_error-IsCounted 0 _ refl)
  player_info-IsCounted pid (some value) =
      either-IsCounted (pid == 0) _ _ (dated_error-IsCounted 107 _ refl) (
        either-IsCounted (equal value (codes "overview")) _ _
          (to_string-IsCounted _
            (two_lines-IsCounting _ _ (refl, (refl, (refl, (refl, tt)))) (refl, (refl, tt))))
          (dated_error-IsCounted 0 _ refl))

  rank_info-IsCounted : IsCounted (rank_info now junk)
  unfolding rank_info visible
  rank_info-IsCounted =
      to_string-IsCounted _ (two_lines-IsCounting _ _ (refl, (refl, (refl, tt))) tt)

  unlocks_info-IsCounted : (pid : ℕ) → IsCounted (unlocks_info now junk pid)
  unfolding unlocks_info visible
  unlocks_info-IsCounted pid = to_string-IsCounted _ (
      append_states-IsCounting unlocks _ (
        append-IsCounting _ header _ (refl, (refl, tt))
          (append-IsCounting _ data_line _ tt (
            append-IsCounting _ header _ (refl, (refl, tt))
              (append-IsCounting _ data_line _ (refl, tt)
                (append-IsCounting _ header _ (refl, (refl, (refl, tt)))
                  (response-IsCounting junk)))))))

  module _ (db : PlayerDb) where
    open db use {Store, has_player, get_player_by_name}

    player_id-IsAnswer : (s : Store) (nick : Option Bytes) → IsAnswer (player_id now junk db s nick)
    unfolding player_id visible
    player_id-IsAnswer s none = counted-IsAnswer _ (error_text-IsCounted _ refl)
    player_id-IsAnswer s (some nick) = elim (Bool-cases (ltb 32 (length nick))) [
      | inl long ↦ rw long (counted-IsAnswer _ (error_text-IsCounted _ refl))
      | inr short ↦ elim (Bool-cases (has_player s nick)) [
        | inl there ↦
            let (p, found) = db.has-get s nick there in
            rw (short, there, found)
              (counted-IsAnswer _ (to_string-IsCounted _ (two_lines-IsCounting _ _ (refl, tt) tt)))
        | inr missing ↦ rw (short, missing) (counted-IsAnswer _ (dated_error-IsCounted 0 _ refl))
      ]
    ]

    page-IsAnswer :
        (s : Store) (path : Bytes) (pid : ℕ) (params : List (Bytes × Bytes))
        → IsAnswer (page now junk db s path pid params)
    unfolding page visible
    page-IsAnswer s path pid params =
        let either = either-IsAnswer in
        let counted = counted-IsAnswer in
        either _ _ _ (_, refl, inr (inl refl))
          (either _ _ _ (counted _ (awards_info-IsCounted pid)) (
            either _ _ _ (counted _ backend_info-IsCounted) (
              either _ _ _ (counted _ leader_board-IsCounted) (
                either _ _ _ (counted _ (error_text-IsCounted _ refl)) (
                  either _ _ _ (player_id-IsAnswer s (find_param (codes "nick") params)) (
                    either _ _ _
                      (counted _ (player_info-IsCounted pid (find_param (codes "info") params)))
                      (either _ _ _ (counted _ rank_info-IsCounted) (
                        either _ _ _ (counted _ (unlocks_info-IsCounted pid))
                          (_, refl, inl refl)))))))))

    pub handle_bf2web-IsAnswer :
        (s : Store) (uri : Uri) → IsAnswer (handle_bf2web now junk db s uri)
    unfolding handle_bf2web
    handle_bf2web-IsAnswer s uri = elim (Option-cases (pid_param uri.params)) [
      | inl bad ↦ rw (bad, handle_bf2web) (_, refl, inl refl)
      | inr (pid, good) ↦
          rw (good, handle_bf2web) (page-IsAnswer s (map to_lower uri.encoded_path) pid uri.params)
    ]
