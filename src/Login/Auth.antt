-- ===== src/Login/Auth.antt =====
-- The login packet: what a client shows and what it gets.
use gamespy_emulator.Login.Handlers.{
  State, authenticating, authenticated, Client, login_name, Outcome, done, check_response,
  find_player, login_values, login_in, handle_login,
}
use gamespy_emulator.Players.{PlayerData, PlayerDb}
use gamespy_emulator.Prelude.{
  ℕ, ◌≡◌, ◌≢◌, refl, sym, ap, ◌∙◌, Bool-cases, inl, inr, Option, none, some, List, Bytes, [], ◌∷◌,
  codes, equal, equal_iff,
}
use gamespy_emulator.Utils.Challenge.{generate_challenge}
use gamespy_emulator.Utils.KeyValue.{value_for_key}
use gamespy_emulator.Utils.Password.{Base64}

module _ (db : PlayerDb) (base64 : Base64) (crc16 : Bytes → ℕ) where
  open db use {Store, has_player, get_player_by_name, has-get}

  -- The login packet names a player of the database and answers the challenge by that player's
  -- password; the client holds this player, with the session computed from the name.
  pub record HasShown (packet : Bytes) (c : Client) (s : Store) (c' : Client) : Type 0 where
    pub name : Bytes
    pub player : PlayerData
    pub client_challenge : Bytes
    pub names :
        login_name
          (value_for_key packet (codes "\\uniquenick\\"))
          (value_for_key packet (codes "\\user\\"))
        ≡ some name
    pub known : get_player_by_name s name ≡ some player
    pub challenges : value_for_key packet (codes "\\challenge\\") ≡ some client_challenge
    pub responds :
        value_for_key packet (codes "\\response\\")
        ≡ some (generate_challenge name player.password client_challenge c.server_challenge)
    pub holds : c'.player_data ≡ some (record player { session = crc16 name })

  -- What `check_response` requires.
  abbrev Answers : Bytes → Option PlayerData → Bytes → Bytes → Client → Client → Type 0
  Answers name o client_challenge response c c' =
      (player : PlayerData) × (o ≡ some player)
      × (response ≡ generate_challenge name player.password client_challenge c.server_challenge)
      × (c'.player_data ≡ some (record player { session = crc16 name }))

  same_client :
      {c c' : Client} {s s' : Store} {sent sent' : List Bytes}
      → ◌≡◌ {A = Outcome db base64 crc16} (done c s sent) (done c' s' sent')
      → c ≡ c'
  same_client e = cc

  not_logged_in :
      {c c' : Client} {s s' : Store} {sent sent' : List Bytes}
      → c.state ≢ authenticated
      → ◌≡◌ {A = Outcome db base64 crc16} (done c s sent) (done c' s' sent')
      → c'.state ≡ authenticated
      → ⊥
  not_logged_in n e a = n (ap (λ (x : Client). x.state) (same_client e) ∙ a)

  check_response-Answers :
      (name : Bytes) (o : Option PlayerData) (client_challenge response : Bytes) (c : Client)
      (s : Store) {c' : Client} {s' : Store} {sent : List Bytes}
      → c.state ≢ authenticated
      → check_response db base64 crc16 name o client_challenge response c s ≡ done c' s' sent
      → c'.state ≡ authenticated
      → Answers name o client_challenge response c c'
  check_response-Answers name none client_challenge response c s n e a = cc
  check_response-Answers name (some player) client_challenge response c s {c'} n e a =
      let right = generate_challenge name player.password client_challenge c.server_challenge in
      elim (Bool-cases (equal response right)) [
        | inl same ↦ (
          player,
          refl,
          (equal_iff response right).0 same,
          ap (λ (x : Client). x.player_data) (sym (same_client (rw same at e))),
        )
        | inr differs ↦ absurd (not_logged_in n (rw differs at e) a)
      ]

  find_player-Answers :
      (name client_challenge response : Bytes) (c : Client) (s : Store) {c' : Client} {s' : Store}
      {sent : List Bytes}
      → c.state ≢ authenticated
      → find_player db base64 crc16 name client_challenge response c s ≡ done c' s' sent
      → c'.state ≡ authenticated
      → Answers name (get_player_by_name s name) client_challenge response c c'
  find_player-Answers [] client_challenge response c s n e a = absurd (not_logged_in n e a)
  find_player-Answers (x ∷ xs) client_challenge response c s n e a =
      elim (Bool-cases (has_player s (x ∷ xs))) [
        | inl there ↦
            check_response-Answers (x ∷ xs) (get_player_by_name s (x ∷ xs)) client_challenge
              response c s n (rw there at e) a
        | inr missing ↦ absurd (not_logged_in n (rw missing at e) a)
      ]

  -- The three values that `login_values` got.
  abbrev Values : Option Bytes → Option Bytes → Option Bytes → Client → Store → Client → Type 0
  Values name challenge response c s c' =
      (n : Bytes) × (cc : Bytes) × (r : Bytes) × (name ≡ some n)
      × (challenge ≡ some cc)
      × (response ≡ some r)
      × Answers n (get_player_by_name s n) cc r c c'

  login_values-Values :
      (name challenge response : Option Bytes) (c : Client) (s : Store) {c' : Client} {s' : Store}
      {sent : List Bytes}
      → c.state ≢ authenticated
      → login_values db base64 crc16 name challenge response c s ≡ done c' s' sent
      → c'.state ≡ authenticated
      → Values name challenge response c s c'
  login_values-Values (some name) (some challenge) (some response) c s n e a = (
    name,
    challenge,
    response,
    refl,
    refl,
    refl,
    find_player-Answers name challenge response c s n e a,
  )
  login_values-Values _ _ _ c s n e a = absurd (not_logged_in n e a)

  login_in-HasShown :
      (st : State) (packet : Bytes) (c : Client) (s : Store) {c' : Client} {s' : Store}
      {sent : List Bytes}
      → c.state ≡ st
      → c.state ≢ authenticated
      → login_in db base64 crc16 st packet c s ≡ done c' s' sent
      → c'.state ≡ authenticated
      → HasShown packet c s c'
  login_in-HasShown authenticating packet c s i n e a =
      let (name, challenge, response, e₁, e₂, e₃, (player, known, right, holds)) =
        login_values-Values
          (login_name (value_for_key packet (codes "\\uniquenick\\"))
            (value_for_key packet (codes "\\user\\")))
          (value_for_key packet (codes "\\challenge\\"))
          (value_for_key packet (codes "\\response\\")) c s n e a in
      record {
        name = name;
        player = player;
        client_challenge = challenge;
        names = e₁;
        known = known;
        challenges = e₂;
        responds = e₃ ∙ ap some right;
        holds = holds;
      }
  login_in-HasShown _ packet c s i n e a = absurd (not_logged_in n e a)

  -- A login packet that takes the client into the authenticated state has shown that it knows the
  -- password of the player it names, and the client then holds that player.
  pub handle_login-HasShown :
      (packet : Bytes) (c : Client) (s : Store) {c' : Client} {s' : Store} {sent : List Bytes}
      → c.state ≢ authenticated
      → handle_login db base64 crc16 packet c s ≡ done c' s' sent
      → c'.state ≡ authenticated
      → HasShown packet c s c'
  unfolding handle_login
  handle_login-HasShown packet c s n e a = login_in-HasShown c.state packet c s refl n e a
