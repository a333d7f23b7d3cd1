-- ===== src/Master/Proof.antt =====
-- How a server comes to be validated.
use gamespy_emulator.Prelude.{
  ℕ, ◌≡◌, ◌⊎◌, inl, inr, refl, sym, ap, ◌∙◌, Bool, true, Bytes, List, [], ◌∷◌, ◌++◌, drop, length,
  arith, some, if◌then◌else◌, equal, equal_iff, Bool-cases, Option-cases,
}
use gamespy_emulator.Qr.{
  QrPacket, ok, challenge, parse, PacketType, ends_in_nul, query, echo, heartbeat, adderror,
  echo_response, client_message, client_message_ack, keepalive, prequery_ip_verify,
}
use gamespy_emulator.Game.Data.{Statement, Run, returned, threw, after_run}
use gamespy_emulator.Master.State.{
  Endpoint, Server, Master, same_endpoint, find_server, has_server, emplace_server, c_string,
}
use gamespy_emulator.Master.Loop.{Arrival, taken, receive_all, accept_connections}
use gamespy_emulator.Master.Handlers.{
  handle_challenge, erase_awaiting, accept_server, handle_packet, receive, incoming_server, send_to,
  received, buffer_after, with_servers,
}
use gamespy_emulator.Master.Validated.{
  emplace_server-has, Result-cases, update_game-validated, handle_heartbeat-validated,
  handle_keep_alive-validated, handle_available-validated,
}

c_string-append :
    (c : ℕ) (cs behind : Bytes)
    → ends_in_nul (c ∷ cs) ≡ true
    → c_string (c ∷ cs) ≡ c_string ((c ∷ cs) ++ behind)
c_string-append c [] behind nul = ground (arith, nul)
c_string-append c (d ∷ ds) behind nul = ground (arith, c_string-append d ds behind nul)

-- A text that ends in a NUL is read from the packet alone.
c_string-behind :
    (content behind proof : Bytes)
    → ends_in_nul content ≡ true
    → c_string (content ++ behind) ≡ some proof
    → (c_string content ≡ some proof) ⊎ ((content ≡ []) × (c_string behind ≡ some proof))
c_string-behind [] behind proof nul h = inr (refl, h)
c_string-behind (c ∷ cs) behind proof nul h = inl (c_string-append c cs behind nul ∙ h)

parse-ends_in_nul :
    (bytes : Bytes) (packet : QrPacket)
    → parse bytes ≡ ok packet
    → ends_in_nul packet.content ≡ true
unfolding parse
parse-ends_in_nul [] packet h = cc
parse-ends_in_nul (t ∷ []) packet h = cc
parse-ends_in_nul (t ∷ i₀ ∷ []) packet h = cc
parse-ends_in_nul (t ∷ i₀ ∷ i₁ ∷ []) packet h = cc
parse-ends_in_nul (t ∷ i₀ ∷ i₁ ∷ i₂ ∷ []) packet h = cc
parse-ends_in_nul (t ∷ i₀ ∷ i₁ ∷ i₂ ∷ i₃ ∷ content) packet h =
    elim (Bool-cases (ends_in_nul content)) [
      | inl e ↦ ground (arith, e, h)
      | inr e ↦ ground (arith, rw (e, parse) at h)
    ]

module _ (accepts : List Statement → Statement → Bool) (base64_encode : Bytes → Bytes) where
  -- The endpoint `e` is the client, a server waits for its validation, and the text of the packet
  -- is the proof that was kept for it. A packet without a text is read on into what is left in the
  -- buffer behind it.
  pub record Proves (e client : Endpoint) (packet : QrPacket) (behind : Bytes) (m : Master)
      : Type 0 where
    pub same : same_endpoint client e ≡ true
    pub server : Server
    pub waiting : find_server client m.awaiting_validation ≡ some server
    pub shown :
        (c_string packet.content ≡ some server.proof)
        ⊎ ((packet.content ≡ []) × (c_string behind ≡ some server.proof))

  erase_awaiting-validated :
      (client : Endpoint) (r : Run Master)
      → (after_run (erase_awaiting accepts base64_encode client r)).validated
        ≡ (after_run r).validated
  erase_awaiting-validated client (returned m) = refl
  erase_awaiting-validated client (threw m) = refl

  accept_server-validated :
      (e client : Endpoint) (s : Server) (m : Master)
      → has_server e (after_run (accept_server accepts base64_encode client s m)).validated ≡ true
      → (has_server e m.validated ≡ true) ⊎ (same_endpoint client e ≡ true)
  accept_server-validated e client s m h =
      let accepted =
        send_to client (0xFE ∷ 0xFD ∷ 0x0A ∷ s.instance_key)
          (with_servers m.awaiting_validation (emplace_server client s m.validated) m) in
      let kept =
        update_game-validated accepts base64_encode s.gamename
          (incoming_server s.last_update client s.values) accepted in
      emplace_server-has client e s m.validated (sym (ap (has_server e) kept) ∙ h)

  handle_challenge-validated :
      (e client : Endpoint) (packet : QrPacket) (behind : Bytes) (m : Master)
      → ends_in_nul packet.content ≡ true
      → has_server e
          (after_run (handle_challenge accepts base64_encode client packet behind m)).validated
        ≡ true
      → (has_server e m.validated ≡ true) ⊎ Proves e client packet behind m
  unfolding handle_challenge
  handle_challenge-validated e client packet behind m nul h =
      elim (Option-cases (find_server client m.awaiting_validation)) [
        | inl n ↦ inl (rw (n, handle_challenge, after_run) at h)
        | inr s ↦ elim (Option-cases (c_string (packet.content ++ behind))) [
          | inl n ↦ inl (rw (s.1, n, handle_challenge, after_run) at h)
          | inr t ↦
              let r =
                if equal (s.0).proof t.0
                then accept_server accepts base64_encode client s.0 m
                else returned m in
              let h' : has_server e (after_run r).validated ≡ true =
                sym (ap (has_server e) (erase_awaiting-validated client r))
                ∙ (rw (s.1, t.1, handle_challenge) at h) in
              elim (Bool-cases (equal (s.0).proof t.0)) [
                | inl q ↦ elim (accept_server-validated e client s.0 m (rw q at h')) [
                  | inl v ↦ inl v
                  | inr same ↦ inr (record {
                    same = same;
                    server = s.0;
                    waiting = s.1;
                    shown =
                        c_string-behind packet.content behind (s.0).proof nul
                          (t.1 ∙ ap some (sym ((equal_iff (s.0).proof t.0).0 q)));
                  })
                ]
                | inr q ↦ inl (rw q at h')
              ]
        ]
      ]

  -- A challenge packet that proves.
  abbrev pub ProvesAs : Endpoint → Endpoint → QrPacket → Bytes → Master → Type 0
  ProvesAs e client packet behind m = (packet.type ≡ challenge) × Proves e client packet behind m

  handle_packet-validated :
      (now : ℕ) (random : Bytes) (e client : Endpoint) (packet : QrPacket) (behind : Bytes)
      (m : Master) (t : PacketType)
      → packet.type ≡ t
      → ends_in_nul packet.content ≡ true
      → has_server e
          (handle_packet accepts base64_encode now random client packet behind m).validated
        ≡ true
      → (has_server e m.validated ≡ true) ⊎ ProvesAs e client packet behind m
  unfolding handle_packet
  handle_packet-validated now random e client packet behind m prequery_ip_verify i nul h = inl (
      sym (ap (has_server e) (handle_available-validated accepts base64_encode client packet m))
      ∙ (rw (i, handle_packet) at h))
  handle_packet-validated now random e client packet behind m heartbeat i nul h = inl (
      sym (
        ap (has_server e)
          (handle_heartbeat-validated accepts base64_encode now random client packet m))
      ∙ (rw (i, handle_packet) at h))
  handle_packet-validated now random e client packet behind m keepalive i nul h = inl (
      sym (handle_keep_alive-validated accepts base64_encode now client e m)
      ∙ (rw (i, handle_packet) at h))
  handle_packet-validated now random e client packet behind m challenge i nul h =
      elim (handle_challenge-validated e client packet behind m nul (rw (i, handle_packet) at h)) [
        | inl v ↦ inl v
        | inr p ↦ inr (i, p)
      ]
  handle_packet-validated now random e client packet behind m query i nul h =
      inl (rw (i, handle_packet) at h)
  handle_packet-validated now random e client packet behind m echo i nul h =
      inl (rw (i, handle_packet) at h)
  handle_packet-validated now random e client packet behind m adderror i nul h =
      inl (rw (i, handle_packet) at h)
  handle_packet-validated now random e client packet behind m echo_response i nul h =
      inl (rw (i, handle_packet) at h)
  handle_packet-validated now random e client packet behind m client_message i nul h =
      inl (rw (i, handle_packet) at h)
  handle_packet-validated now random e client packet behind m client_message_ack i nul h =
      inl (rw (i, handle_packet) at h)

  -- The datagram is a challenge packet from `e` that proves.
  abbrev pub Arrives : Endpoint → Arrival → Bytes → Master → Type 0
  Arrives e a buffer m =
      (packet : QrPacket) × (parse (received a.bytes) ≡ ok packet)
      × ProvesAs e a.client packet (drop (length (received a.bytes)) buffer) m

  -- One of the datagrams is a challenge packet from `e` with the proof that is kept for it then.
  abbrev pub ProvedIn : Endpoint → List Arrival → Bytes → Master → Type 0
  ProvedIn e [] buffer m = ⊥
  ProvedIn e (a ∷ rest) buffer m =
      Arrives e a buffer m
      ⊎ ProvedIn e rest (buffer_after a.bytes buffer)
          (receive accepts base64_encode a.now a.random a.client a.bytes buffer m)

  receive-validated :
      (e : Endpoint) (a : Arrival) (buffer : Bytes) (m : Master)
      → has_server e
          (receive accepts base64_encode a.now a.random a.client a.bytes buffer m).validated
        ≡ true
      → (has_server e m.validated ≡ true) ⊎ Arrives e a buffer m
  unfolding receive
  receive-validated e a buffer m h = elim (Result-cases (parse (received a.bytes))) [
    | inl x ↦ inl (rw (x.1, receive) at h)
    | inr p ↦
        elim (handle_packet-validated a.now a.random e a.client p.0 _ m (p.0).type refl
          (parse-ends_in_nul (received a.bytes) p.0 p.1) (rw (p.1, receive) at h)) [
            | inl v ↦ inl v
            | inr q ↦ inr (p.0, p.1, q)
          ]
  ]

  receive_all-ProvedIn :
      (rest : List Arrival) (buffer : Bytes) (e : Endpoint) (m : Master)
      → has_server e (receive_all accepts base64_encode rest buffer m).validated ≡ true
      → (has_server e m.validated ≡ true) ⊎ ProvedIn e rest buffer m
  receive_all-ProvedIn [] buffer e m h = inl h
  receive_all-ProvedIn (a ∷ rest) buffer e m h =
      elim (receive_all-ProvedIn rest (buffer_after a.bytes buffer) e
        (receive accepts base64_encode a.now a.random a.client a.bytes buffer m) h) [
          | inr p ↦ inr (inr p)
          | inl v ↦ elim (receive-validated e a buffer m v) [ inl u ↦ inl u | inr p ↦ inr (inl p) ]
        ]

  -- Whatever datagrams arrive from whichever clients, whatever the buffer holds at first, and
  -- whatever SQLite accepts: a server that is validated at the end was validated at the start, or one
  -- of the datagrams before the first empty one was a challenge packet from it when it awaited its
  -- validation, with the text that was kept as its proof, or with no text at all when that proof was
  -- left behind it in the buffer.
  pub accept_connections-ProvedIn :
      (arrivals : List Arrival) (buffer : Bytes) (e : Endpoint) (m : Master)
      → has_server e (accept_connections accepts base64_encode arrivals buffer m).validated ≡ true
      → (has_server e m.validated ≡ true) ⊎ ProvedIn e (taken arrivals) buffer m
  accept_connections-ProvedIn arrivals buffer e m h =
      receive_all-ProvedIn (taken arrivals) buffer e m h
