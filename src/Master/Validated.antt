-- ===== src/Master/Validated.antt =====
-- What each handler of the master server does to the validated servers.
use gamespy_emulator.Prelude.{
  ℕ, ◌≡◌, ◌⊎◌, inl, inr, refl, arith, Bool, true, Bytes, List, [], ◌∷◌, ◌++◌, Bool-cases,
  Option-cases, codes,
}
use gamespy_emulator.Qr.{
  QrPacket, ParseError, Result, ok, err, parse_heartbeat, find, QrHeartbeatPacket,
}
use gamespy_emulator.Utils.Encode.{encode}
use gamespy_emulator.Game.Data.{Game, ServerData, Statement, after_run, Run-cases}
use gamespy_emulator.Game.Servers.{add_or_update_server}
use gamespy_emulator.Master.State.{
  Endpoint, Server, Servers, Master, same_endpoint, has_server, emplace_server, change_server,
  drop_last, response_data,
}
use gamespy_emulator.Game.Database.{find_game}
use gamespy_emulator.Master.Handlers.{
  handle_available, handle_keep_alive, update_game, heartbeat_of, handle_heartbeat, incoming_server,
  touch,
}

has_server-change_server :
    (f : Server → Server) (c e : Endpoint) (m : Servers)
    → has_server e (change_server f c m) ≡ has_server e m
unfolding has_server change_server
has_server-change_server f c e [] = refl
has_server-change_server f c e ((d, s) ∷ m) = ground (arith, has_server-change_server f c e m)

pub has_server-append :
    (c e : Endpoint) (s : Server) (m : Servers)
    → has_server e (m ++ (c, s) ∷ []) ≡ true
    → (has_server e m ≡ true) ⊎ (same_endpoint c e ≡ true)
unfolding has_server
has_server-append c e s [] h = ground arith
has_server-append c e s ((d, t) ∷ m) h = ground (arith, has_server-append c e s m)

pub emplace_server-has :
    (c e : Endpoint) (s : Server) (m : Servers)
    → has_server e (emplace_server c s m) ≡ true
    → (has_server e m ≡ true) ⊎ (same_endpoint c e ≡ true)
unfolding emplace_server
emplace_server-has c e s m h = elim (Bool-cases (has_server c m)) [
  | inl a ↦ inl (rw (a, emplace_server) at h)
  | inr a ↦ has_server-append c e s m (rw (a, emplace_server) at h)
]

pub Result-cases {ℓ} :
    {A : Type ℓ} (r : Result A) → ((e : ParseError) × (r ≡ err e)) ⊎ ((a : A) × (r ≡ ok a))
Result-cases (ok a) = inr (a, refl)
Result-cases (err e) = inl (e, refl)

module _ (accepts : List Statement → Statement → Bool) (base64_encode : Bytes → Bytes) where
  pub update_game-validated :
      (name : Bytes) (server : ServerData) (m : Master)
      → (after_run (update_game accepts base64_encode name server m)).validated ≡ m.validated
  unfolding update_game
  update_game-validated name server m = elim (Option-cases (find_game name m.games)) [
    | inl e ↦ rw (e, after_run) refl
    | inr g ↦ elim (Run-cases (add_or_update_server accepts server g.0)) [
      | inl r ↦ rw (g.1, r.1, after_run) refl
      | inr r ↦ rw (g.1, r.1, after_run) refl
    ]
  ]

  heartbeat_of-validated :
      (now : ℕ) (random : Bytes) (client : Endpoint) (packet : QrHeartbeatPacket) (name : Bytes)
      (game : Game) (m : Master)
      → (after_run
          (heartbeat_of accepts base64_encode now random client packet name game m)).validated
        ≡ m.validated
  unfolding heartbeat_of
  heartbeat_of-validated now random client packet name game m =
      let reply = response_data random game.game_data.backend client in
      elim (Bool-cases (has_server client m.validated)) [
        | inl e ↦
            rw e (update_game-validated name (incoming_server now client packet.server_data) m)
        | inr e ↦ elim (Bool-cases (has_server client m.awaiting_validation)) [
          | inl e₂ ↦ rw (e, e₂) refl
          | inr e₂ ↦ elim (Option-cases (encode base64_encode game.game_data.secret_key reply)) [
            | inl o ↦ rw (e, e₂, o) refl
            | inr o ↦ rw (e, e₂, o.1) refl
          ]
        ]
      ]

  pub handle_heartbeat-validated :
      (now : ℕ) (random : Bytes) (client : Endpoint) (packet : QrPacket) (m : Master)
      → (after_run (handle_heartbeat accepts base64_encode now random client packet m)).validated
        ≡ m.validated
  unfolding handle_heartbeat
  handle_heartbeat-validated now random client packet m =
      elim (Result-cases (parse_heartbeat packet)) [
        | inl e ↦ rw (e.1, handle_heartbeat, after_run) refl
        | inr b ↦ elim (Option-cases (find (codes "gamename") b.0.server_data)) [
          | inl e ↦ rw (b.1, e, handle_heartbeat, after_run) refl
          | inr n ↦ elim (Option-cases (find_game n.0 m.games)) [
            | inl e ↦ rw (b.1, n.1, e, handle_heartbeat, after_run) refl
            | inr g ↦
                rw (b.1, n.1, g.1, handle_heartbeat)
                  (heartbeat_of-validated now random client b.0 n.0 g.0 m)
          ]
        ]
      ]

  pub handle_keep_alive-validated :
      (now : ℕ) (client e : Endpoint) (m : Master)
      → has_server e (handle_keep_alive now client m).validated ≡ has_server e m.validated
  unfolding handle_keep_alive
  handle_keep_alive-validated now client e m =
      elim (Bool-cases (has_server client m.awaiting_validation)) [
        | inl a ↦ rw a refl
        | inr a ↦ elim (Bool-cases (has_server client m.validated)) [
          | inl v ↦ rw (a, v) (has_server-change_server (touch now) client e m.validated)
          | inr v ↦ rw (a, v) refl
        ]
      ]

  pub handle_available-validated :
      (client : Endpoint) (packet : QrPacket) (m : Master)
      → (handle_available client packet m).validated ≡ m.validated
  unfolding handle_available
  handle_available-validated client packet m = elim (Option-cases (drop_last packet.content)) [
    | inl e ↦ rw (e, handle_available) refl
    | inr n ↦ elim (Option-cases (find_game n.0 m.games)) [
      | inl e ↦ rw (n.1, e, handle_available) refl
      | inr g ↦ rw (n.1, g.1, handle_available) refl
    ]
  ]
