-- ===== src/Redirect/Detect.antt =====
-- The datagram of `detect_gamespy` at the master server.
use gamespy_emulator.Game.Data.{Game, Statement}
use gamespy_emulator.Game.Database.{find_game}
use gamespy_emulator.Master.Handlers.{
  send_to, availability_byte, handle_available, handle_packet, receive,
}
use gamespy_emulator.Master.State.{Endpoint, Master, drop_last}
use gamespy_emulator.Prelude.{
  ℕ, ◌≡◌, ◌⊎◌, refl, inl, inr, Bool, true, none, some, Bytes, List, [], ◌∷◌, ◌++◌, length, ◌≤◌,
  arith, length-append, take-all, take, Option-cases,
}
use gamespy_emulator.Qr.{parse, ends_in_nul}
use gamespy_emulator.Redirect.{available_packet}

ends_in_nul-append : (name : Bytes) → ends_in_nul (name ++ 0 ∷ []) ≡ true
ends_in_nul-append [] = refl
ends_in_nul-append (c ∷ []) = refl
ends_in_nul-append (c ∷ d ∷ ds) = ends_in_nul-append (d ∷ ds)

drop_last-append : (name : Bytes) → drop_last (name ++ 0 ∷ []) ≡ some name
drop_last-append [] = refl
drop_last-append (c ∷ []) = refl
drop_last-append (c ∷ d ∷ ds) = rw (drop_last-append (d ∷ ds)) refl

-- The datagram fits into the buffer of the server.
whole : (game : Bytes) → length game ≤ 1394 → take 1395 (game ++ 0 ∷ []) ≡ game ++ 0 ∷ []
whole game h = take-all 1395 (game ++ 0 ∷ []) (omega (arith, length-append game (0 ∷ [])))

module _ (accepts : List Statement → Statement → Bool) (base64_encode : Bytes → Bytes) where
  -- The datagram that detect_gamespy broadcasts for a game with a name of at most 1394 characters is answered by the master server, with a
  -- datagram of the eight bytes that there is room for, if and only if the server has the game;
  -- otherwise nothing is sent or changed.
  pub receive-available_packet :
      (now : ℕ) (random : Bytes) (client : Endpoint) (game : Bytes) (buffer : Bytes) (m : Master)
      → length game ≤ 1394
      → ((find_game game m.games ≡ none)
          × (receive accepts base64_encode now random client (available_packet game) buffer m ≡ m))
        ⊎ ((g : Game) × (find_game game m.games ≡ some g)
            × (reply : Bytes) × (receive accepts base64_encode now random client
                  (available_packet game)
                  buffer
                  m
                ≡ send_to client reply m)
            × (length reply ≡ 8))
  unfolding receive parse handle_packet handle_available
  receive-available_packet now random client game buffer m h =
      elim (Option-cases (find_game game m.games)) [
        | inl e ↦ inl (
          e,
          rw
              (
                whole game h,
                ends_in_nul-append game,
                drop_last-append game,
                e,
                receive,
                parse,
                handle_packet,
                handle_available,
              )
              refl,
        )
        | inr (g, e) ↦ inr (
          g,
          e,
          0xFE ∷ 0xFD ∷ 0x09 ∷ 0 ∷ 0 ∷ 0 ∷ availability_byte g.game_data.availability ∷ 0 ∷ [],
          rw
              (
                whole game h,
                ends_in_nul-append game,
                drop_last-append game,
                e,
                receive,
                parse,
                handle_packet,
                handle_available,
              )
              refl,
          refl,
        )
      ]
