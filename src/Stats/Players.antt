-- ===== src/Stats/Players.antt =====
-- `StatsClient::Process`: which players are accepted.
use mathlib.Core.List.{append-nil, append_assoc}
use mathlib.Core.Path.{subst}
use gamespy_emulator.Players.{PlayerData, PlayerDb}
use gamespy_emulator.Prelude.{
  ℕ, ◌≡◌, ◌⊎◌, refl, sym, ap, ◌∙◌, Bool, true, false, Option, none, some, List, Bytes, [], ◌∷◌,
  ◌++◌, codes, if◌then◌else◌, equal, equal_iff, starts_with, inl, inr, Bool-cases, Option-cases,
}
use gamespy_emulator.Stats.Challenge.{frame}
use gamespy_emulator.Stats.Client.{
  Client, send_packet, hande_snapshot, player_response, refused, accepted, player_reply,
  authenticate_player, missing_lid, handle_authp, handle_updgame, handle_packet, handle_packets,
}
use gamespy_emulator.Utils.KeyValue.{value_for_key, value_for_key_uint32}

module _ (db : PlayerDb) (s : PlayerDb.Store db) (session_key : ℕ) where
  -- The packet names a player of the database, and responds with the digest of the player's
  -- password and of the session key.
  pub record Proves (packet : Bytes) (player : PlayerData) : Type 0 where
    pub pid : ℕ
    pub named : value_for_key_uint32 packet (codes "\\pid\\") ≡ some pid
    pub there : PlayerDb.get_player_by_pid db s pid ≡ some player
    pub responds :
        value_for_key packet (codes "\\resp\\") ≡ some (player_response session_key player)

  -- The replies that a packet may get.
  pub data Reply (packet : Bytes) : Bytes → Type 0 where
    no_lid : Reply packet missing_lid
    rejects : (local_id : Bytes) → Reply packet (refused local_id)
    accepts :
        (player : PlayerData) (local_id : Bytes)
        → Proves packet player
        → value_for_key packet (codes "\\lid\\") ≡ some local_id
        → Reply packet (accepted player local_id)

  -- The messages are those from before, then one reply for some of the packets, in their order.
  pub data Replies : List Bytes → List Bytes → Type 0 where
    silence : Replies [] []
    skips : {p : Bytes} {ps ms : List Bytes} → Replies ps ms → Replies (p ∷ ps) ms
    replies :
        {p m : Bytes} {ps ms : List Bytes}
        → Reply p m
        → Replies ps ms
        → Replies (p ∷ ps) (frame m ∷ ms)

module _ (db : PlayerDb) (endpoint : Bool) (s : PlayerDb.Store db) where
  -- What a packet does: the session key stays, and there is at most one reply.
  abbrev IsAnswered : Bytes → Client → Client → Type 0
  IsAnswered packet c c' =
      (c'.session_key ≡ c.session_key)
      × ((c'.sent ≡ c.sent)
          ⊎ ((m : Bytes) × (c'.sent ≡ c.sent ++ frame m ∷ []) × Reply db s c.session_key packet m))

  silent-IsAnswered : (packet : Bytes) (c : Client) → IsAnswered packet c c
  silent-IsAnswered packet c = (refl, inl refl)

  send_packet-IsAnswered :
      (packet m : Bytes) (c : Client)
      → Reply db s c.session_key packet m
      → IsAnswered packet c (send_packet m c)
  unfolding send_packet
  send_packet-IsAnswered packet m c h = (refl, inr (m, refl, h))

  player_reply-Reply :
      (packet local_id : Bytes) (session_key pid : ℕ) (player : Option PlayerData)
      (resp : Option Bytes)
      → value_for_key packet (codes "\\lid\\") ≡ some local_id
      → value_for_key_uint32 packet (codes "\\pid\\") ≡ some pid
      → PlayerDb.get_player_by_pid db s pid ≡ player
      → value_for_key packet (codes "\\resp\\") ≡ resp
      → Reply db s session_key packet (player_reply session_key player resp local_id)
  player_reply-Reply packet i k pid none resp l n t r = rejects i
  player_reply-Reply packet i k pid (some player) none l n t r = rejects i
  player_reply-Reply packet i k pid (some player) (some resp) l n t r =
      elim (Bool-cases (equal resp (player_response k player))) [
        | inl same ↦ rw same (
            accepts player i
              (record {
                pid = pid;
                named = n;
                there = t;
                responds = rw (← (equal_iff resp (player_response k player)).0 same) r;
              })
              l)
        | inr other ↦ rw other (rejects i)
      ]

  authenticate_player-IsAnswered :
      (packet local_id : Bytes) (c : Client)
      → value_for_key packet (codes "\\lid\\") ≡ some local_id
      → IsAnswered packet c (authenticate_player db endpoint s packet local_id c)
  unfolding authenticate_player
  authenticate_player-IsAnswered packet i c l =
      elim (Option-cases (value_for_key packet (codes "\\authtoken\\"))) [
        | inr (t, e) ↦ rw (e, authenticate_player) (silent-IsAnswered packet c)
        | inl e ↦ elim (Option-cases (value_for_key_uint32 packet (codes "\\pid\\"))) [
          | inl f ↦ rw (e, f, authenticate_player) (silent-IsAnswered packet c)
          | inr (pid, f) ↦
              rw (e, f, authenticate_player)
                (send_packet-IsAnswered packet _ c
                  (player_reply-Reply packet i c.session_key pid _ _ l f refl refl))
        ]
      ]

  handle_authp-IsAnswered :
      (packet : Bytes) (c : Client) → IsAnswered packet c (handle_authp db endpoint s packet c)
  unfolding handle_authp
  handle_authp-IsAnswered packet c = elim (Option-cases (value_for_key packet (codes "\\lid\\"))) [
    | inl e ↦ rw (e, handle_authp) (send_packet-IsAnswered packet _ c no_lid)
    | inr (i, e) ↦ elim (Bool-cases (equal i [])) [
      | inl nil ↦ rw (e, nil, handle_authp) (send_packet-IsAnswered packet _ c no_lid)
      | inr given ↦ rw (e, given, handle_authp) (authenticate_player-IsAnswered packet i c e)
    ]
  ]

  handle_updgame-IsAnswered :
      (packet : Bytes) (c : Client) → IsAnswered packet c (handle_updgame db endpoint packet c)
  unfolding handle_updgame hande_snapshot
  handle_updgame-IsAnswered packet c =
      elim (Option-cases (value_for_key packet (codes "\\gamedata\\"))) [
        | inl e ↦ rw (e, handle_updgame) (silent-IsAnswered packet c)
        | inr (g, e) ↦ elim (Bool-cases endpoint) [
          | inl on ↦ rw (e, on, handle_updgame) (refl, inl refl)
          | inr off ↦ rw (e, off, handle_updgame) (refl, inl refl)
        ]
      ]

  either-IsAnswered :
      (b : Bool) (packet : Bytes) (c x y : Client)
      → IsAnswered packet c x
      → IsAnswered packet c y
      → IsAnswered packet c (if b then x else y)
  either-IsAnswered true packet c x y hx hy = hx
  either-IsAnswered false packet c x y hx hy = hy

  handle_packet-IsAnswered :
      (packet : Bytes) (c : Client) → IsAnswered packet c (handle_packet db endpoint s packet c)
  unfolding handle_packet
  handle_packet-IsAnswered p c =
      let silent = silent-IsAnswered p c in
      either-IsAnswered (starts_with (codes "\\getpid\\") p) p c _ _ silent (
        either-IsAnswered (starts_with (codes "\\getpd\\") p) p c _ _ silent (
          either-IsAnswered (starts_with (codes "\\authp\\") p) p c _ _
            (handle_authp-IsAnswered p c)
            (either-IsAnswered (starts_with (codes "\\setpd\\") p) p c _ _ silent (
              either-IsAnswered (starts_with (codes "\\updgame\\") p) p c _ _
                (handle_updgame-IsAnswered p c) silent))))

  -- The packets behind the authentication get at most one reply each, in their order. A player is
  -- accepted only by a packet with a player id of the database, and with the digest of that
  -- player's password and of the session key.
  pub handle_packets-Replies :
      (packets : List Bytes) (c : Client)
      → (ms : List Bytes) × ((handle_packets db endpoint s packets c).sent ≡ c.sent ++ ms)
        × Replies db s c.session_key packets ms
  unfolding handle_packets
  handle_packets-Replies [] c = ([], sym (append-nil c.sent), silence)
  handle_packets-Replies (p ∷ ps) c =
      let c' = handle_packet db endpoint s p c in
      let (key, reply) = handle_packet-IsAnswered p c in
      let (ms, sent, later) = handle_packets-Replies ps c' in
      elim reply [
        | inl nothing ↦ (
          ms,
          sent ∙ ap (λ t. t ++ ms) nothing,
          skips (subst (λ k. Replies db s k ps ms) key later),
        )
        | inr (m, one, h) ↦ (
          frame m ∷ ms,
          sent ∙ ap (λ t. t ++ ms) one ∙ append_assoc c.sent (frame m ∷ []) ms,
          replies h (subst (λ k. Replies db s k ps ms) key later),
        )
      ]
