-- ===== src/Stats/Uploads.antt =====
-- `StatsClient::Process`: whose snapshots are uploaded.
use mathlib.Core.List.{append-nil, append_assoc}
use gamespy_emulator.Game.Data.{Game}
use gamespy_emulator.Players.{PlayerDb}
use gamespy_emulator.Prelude.{
  ℕ, ◌≡◌, ◌⊎◌, refl, sym, ◌∙◌, ap, Bool, true, false, none, some, List, Bytes, [], ◌∷◌, ◌++◌, codes,
  if◌then◌else◌, equal, starts_with, other_prefix, inl, inr, Bool-cases, Option-cases,
}
use gamespy_emulator.Stats.Client.{
  Client, send_packet, challenge, check_auth, hande_snapshot, refused, authenticate_player,
  handle_authp, handle_updgame, handle_packet, handle_packets, first_of, rest_of, process,
  connected,
}
use gamespy_emulator.Utils.KeyValue.{value_for_key, value_for_key_uint32}
use gamespy_emulator.Utils.Password.{replace}
use gamespy_emulator.Stats.Auth.{IsGenuine, check_auth-IsGenuine, check_auth-snapshots}

-- What a packet of the game server asks to upload.
abbrev pub upload_of : Bytes → List Bytes
upload_of packet =
    if starts_with (codes "\\updgame\\") packet
    then elim (value_for_key packet (codes "\\gamedata\\")) [
      | none ↦ []
      | some game_data ↦ replace 1 b'\\' game_data ∷ []
    ]
    else []

abbrev pub uploads : List Bytes → List Bytes
uploads [] = []
uploads (p ∷ ps) = upload_of p ++ uploads ps

module _ (db : PlayerDb) where
  open db use {Store, get_player_by_pid}

  authenticate_player-snapshots :
      (s : Store) (packet local_id : Bytes) (c : Client)
      → (authenticate_player db true s packet local_id c).snapshots ≡ c.snapshots
  unfolding authenticate_player send_packet
  authenticate_player-snapshots s packet local_id c =
      elim (Option-cases (value_for_key packet (codes "\\authtoken\\"))) [
        | inr (t, e) ↦ rw (e, authenticate_player) refl
        | inl e ↦ elim (Option-cases (value_for_key_uint32 packet (codes "\\pid\\"))) [
          | inl f ↦ rw (e, f, authenticate_player) refl
          | inr (pid, f) ↦ rw (e, f, authenticate_player) refl
        ]
      ]

  handle_authp-snapshots :
      (s : Store) (packet : Bytes) (c : Client)
      → (handle_authp db true s packet c).snapshots ≡ c.snapshots
  unfolding handle_authp send_packet
  handle_authp-snapshots s packet c = elim (Option-cases (value_for_key packet (codes "\\lid\\"))) [
    | inl e ↦ rw (e, handle_authp) refl
    | inr (i, e) ↦ elim (Bool-cases (equal i [])) [
      | inl nil ↦ rw (e, nil, handle_authp) refl
      | inr given ↦ rw (e, given, handle_authp) (authenticate_player-snapshots s packet i c)
    ]
  ]

  handle_updgame-snapshots :
      (packet : Bytes) (c : Client)
      → starts_with (codes "\\updgame\\") packet ≡ true
      → (handle_updgame db true packet c).snapshots ≡ c.snapshots ++ upload_of packet
  unfolding handle_updgame hande_snapshot
  handle_updgame-snapshots packet c h =
      elim (Option-cases (value_for_key packet (codes "\\gamedata\\"))) [
        | inl e ↦ rw (e, h, handle_updgame) (sym (append-nil c.snapshots))
        | inr (g, e) ↦ rw (e, h, handle_updgame) refl
      ]

  either-snapshots :
      (b : Bool) (x y : Client) (t : List Bytes)
      → x.snapshots ≡ t
      → y.snapshots ≡ t
      → (if b then x else y).snapshots ≡ t
  either-snapshots true x y t hx hy = hx
  either-snapshots false x y t hx hy = hy

  then-snapshots :
      (b : Bool) (x y : Client) (t : List Bytes)
      → b ≡ true
      → x.snapshots ≡ t
      → (if b then x else y).snapshots ≡ t
  then-snapshots b x y t h hx = rw h hx

  else-snapshots :
      (b : Bool) (x y : Client) (t : List Bytes)
      → b ≡ false
      → y.snapshots ≡ t
      → (if b then x else y).snapshots ≡ t
  else-snapshots b x y t h hy = rw h hy

  handle_packet-snapshots :
      (s : Store) (packet : Bytes) (c : Client)
      → (handle_packet db true s packet c).snapshots ≡ c.snapshots ++ upload_of packet
  unfolding handle_packet
  handle_packet-snapshots s packet c =
      elim (Bool-cases (starts_with (codes "\\updgame\\") packet)) [
        | inl here ↦
            let uploaded = handle_updgame-snapshots packet c here in
            rw
              (
                other_prefix b'u' b'g' (codes "pdgame\\") (codes "etpid\\") packet refl here,
                other_prefix b'u' b'g' (codes "pdgame\\") (codes "etpd\\") packet refl here,
                other_prefix b'u' b'a' (codes "pdgame\\") (codes "uthp\\") packet refl here,
                other_prefix b'u' b's' (codes "pdgame\\") (codes "etpd\\") packet refl here,
                handle_packet,
              )
              (then-snapshots (starts_with (codes "\\updgame\\") packet) _ c _ here uploaded)
        | inr other ↦
            let same : c.snapshots ≡ c.snapshots ++ upload_of packet =
              rw other (sym (append-nil c.snapshots)) in
            either-snapshots (starts_with (codes "\\getpid\\") packet) _ _ _ same (
              either-snapshots (starts_with (codes "\\getpd\\") packet) _ _ _ same (
                either-snapshots (starts_with (codes "\\authp\\") packet) _ _ _
                  (handle_authp-snapshots s packet c ∙ same)
                  (either-snapshots (starts_with (codes "\\setpd\\") packet) _ _ _ same
                    (else-snapshots (starts_with (codes "\\updgame\\") packet) _ _ _ other same))))
      ]

  handle_packets-snapshots :
      (s : Store) (ps : List Bytes) (c : Client)
      → (handle_packets db true s ps c).snapshots ≡ c.snapshots ++ uploads ps
  unfolding handle_packets
  handle_packets-snapshots s [] c = sym (append-nil c.snapshots)
  handle_packets-snapshots s (p ∷ ps) c =
      handle_packets-snapshots s ps (handle_packet db true s p c)
      ∙ ap (λ t. t ++ uploads ps) (handle_packet-snapshots s p c)
      ∙ append_assoc c.snapshots (upload_of p) (uploads ps)

  -- With an upload endpoint: either a new connection uploads nothing, or its first packet names a
  -- known game and responds to the challenge with that game's secret key, and the uploads are the
  -- game data of the `\updgame\` packets behind it, in their order.
  pub process-IsTrusted :
      (games : List Game) (server_challenge : Bytes) (now : ℕ) (s : Store) (packets : List Bytes)
      → ((process db true games server_challenge now s packets connected).snapshots ≡ [])
        ⊎ (IsGenuine games server_challenge packets
            × ((process db true games server_challenge now s packets connected).snapshots
                ≡ uploads (rest_of packets)))
  unfolding process challenge send_packet
  process-IsTrusted games server_challenge now s packets =
      let start = challenge server_challenge connected in
      let kept = check_auth-snapshots games now server_challenge (first_of packets) start in
      elim (Bool-cases (check_auth games now (first_of packets) start).1) [
        | inl ok ↦ inr (
          check_auth-IsGenuine games now server_challenge packets start refl ok,
          rw ok (
              handle_packets-snapshots s (rest_of packets)
                (check_auth games now (first_of packets) start).0
              ∙ ap (λ t. t ++ uploads (rest_of packets)) kept),
        )
        | inr refused ↦ inl (rw refused kept)
      ]
