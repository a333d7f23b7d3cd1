-- ===== src/Stats/Auth.antt =====
-- `StatsClient::Authenticate`: what a game server has to send.
use gamespy_emulator.Game.Data.{Game}
use gamespy_emulator.Game.Database.{find_game}
use gamespy_emulator.Prelude.{
  ℕ, ◌≡◌, refl, true, not, ◌||◌, Option, none, some, List, Bytes, [], ◌∷◌, codes, equal, equal_iff,
  starts_with, arith, inl, inr, Bool-cases, Option-cases,
}
use gamespy_emulator.Stats.Client.{
  Client, send_packet, check_response, check_auth, expected_response, first_of,
}
use gamespy_emulator.Utils.KeyValue.{value_for_key}

-- The first packet names a game that is there, and responds to the challenge with its secret key.
pub record IsGenuine (games : List Game) (server_challenge : Bytes) (packets : List Bytes)
    : Type 0 where
  pub packet : Bytes
  pub first : first_of packets ≡ some packet
  pub gamename : Bytes
  pub named : value_for_key packet (codes "\\gamename\\") ≡ some gamename
  pub game : Game
  pub there : find_game gamename games ≡ some game
  pub responds :
      value_for_key packet (codes "\\response\\") ≡ some (expected_response server_challenge game)

module _ (games : List Game) (now : ℕ) (server_challenge : Bytes) where
  check_response-true :
      (packet : Bytes) (game : Game) (c : Client)
      → (check_response now packet game c).1 ≡ true
      → value_for_key packet (codes "\\response\\")
        ≡ some (expected_response c.server_challenge game)
  unfolding check_response
  check_response-true packet game c h =
      elim (Option-cases (value_for_key packet (codes "\\response\\"))) [
        | inl e ↦ ground (arith, rw (e, check_response) at h)
        | inr (r, e) ↦ elim (Bool-cases (equal r (expected_response c.server_challenge game))) [
          | inl same ↦ rw (e, (equal_iff r _).0 same) refl
          | inr other ↦ ground (arith, rw (e, other, check_response) at h)
        ]
      ]

  check_response-snapshots :
      (packet : Bytes) (game : Game) (c : Client)
      → (check_response now packet game c).0.snapshots ≡ c.snapshots
  unfolding check_response send_packet
  check_response-snapshots packet game c =
      elim (Option-cases (value_for_key packet (codes "\\response\\"))) [
        | inl e ↦ rw (e, check_response) refl
        | inr (r, e) ↦ elim (Bool-cases (equal r (expected_response c.server_challenge game))) [
          | inl same ↦ rw (e, same, check_response) refl
          | inr other ↦ rw (e, other, check_response) refl
        ]
      ]

  pub check_auth-IsGenuine :
      (packets : List Bytes) (c : Client)
      → c.server_challenge ≡ server_challenge
      → (check_auth games now (first_of packets) c).1 ≡ true
      → IsGenuine games server_challenge packets
  unfolding check_auth
  check_auth-IsGenuine [] c k h = ground arith
  check_auth-IsGenuine (p ∷ ps) c k h =
      elim (Option-cases (value_for_key p (codes "\\gamename\\"))) [
        | inl e ↦ ground (arith, rw (e, check_auth) at h)
        | inr (name, e) ↦
            elim (Bool-cases (not (starts_with (codes "\\auth\\") p) || equal name [])) [
              | inl bad ↦ ground (arith, rw (e, bad, check_auth) at h)
              | inr fine ↦ elim (Option-cases (find_game name games)) [
                | inl missing ↦ ground (arith, rw (e, fine, missing, check_auth) at h)
                | inr (game, found) ↦ record {
                  packet = p;
                  first = refl;
                  gamename = name;
                  named = e;
                  game = game;
                  there = found;
                  responds =
                      rw (← k)
                        (check_response-true p game c (rw (e, fine, found, check_auth) at h));
                }
              ]
            ]
      ]

  pub check_auth-snapshots :
      (first : Option Bytes) (c : Client) → (check_auth games now first c).0.snapshots ≡ c.snapshots
  unfolding check_auth send_packet
  check_auth-snapshots none c = refl
  check_auth-snapshots (some p) c = elim (Option-cases (value_for_key p (codes "\\gamename\\"))) [
    | inl e ↦ rw (e, check_auth) refl
    | inr (name, e) ↦ elim (Bool-cases (not (starts_with (codes "\\auth\\") p) || equal name [])) [
      | inl bad ↦ rw (e, bad, check_auth) refl
      | inr fine ↦ elim (Option-cases (find_game name games)) [
        | inl missing ↦ rw (e, fine, missing, check_auth, send_packet) refl
        | inr (game, found) ↦ rw (e, fine, found, check_auth) (check_response-snapshots p game c)
      ]
    ]
  ]
