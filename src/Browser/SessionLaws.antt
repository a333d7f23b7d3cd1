-- ===== src/Browser/SessionLaws.antt =====
-- The answer to a list request as a client with the cypher reads it.
use mathlib.Core.List.{append-nil, append_assoc}
use gamespy_emulator.Prelude.{
  ℕ, ◌≡◌, refl, sym, ap, true, ◌||◌, Bytes, List, [], ◌∷◌, ◌++◌, Option, none, some, ◌==◌,
  if◌then◌else◌, Bool-cases, Option-cases, inl, inr,
}
use gamespy_emulator.Sapphire.{Sapphire, encrypt_all, decrypt_all}
use gamespy_emulator.Sapphire.Stream.{decrypt_all-encrypt_all}
use gamespy_emulator.Game.Data.{Game, ServerData, returned, after_run}
use gamespy_emulator.Browser.Options
use gamespy_emulator.Browser.Request.{ServerListRequest, has_option}
use gamespy_emulator.Browser.Response.{get_response_header_bytes, prepare_server}
use gamespy_emulator.Browser.Session.{Client, send, send_servers, end_list, answer, result_limit}

-- One cypher over the messages of a session, in order.
abbrev pub decrypt_messages : Sapphire → List Bytes → Sapphire × List Bytes
decrypt_messages c [] = (c, [])
decrypt_messages c (m ∷ ms) =
    let (c', plain) = decrypt_all c m in
    let (c'', plains) = decrypt_messages c' ms in (c'', plain ∷ plains)

decrypt_messages-append :
    (c : Sapphire) (ms : List Bytes) (m : Bytes)
    → decrypt_messages c (ms ++ m ∷ []) ≡ (
      (decrypt_all (decrypt_messages c ms).0 m).0,
      (decrypt_messages c ms).1 ++ (decrypt_all (decrypt_messages c ms).0 m).1 ∷ [],
    )
decrypt_messages-append c [] m = refl
decrypt_messages-append c (n ∷ ms) m =
    ap (λ (p : Sapphire × List Bytes). (p.0, (decrypt_all c n).1 ∷ p.1))
      (decrypt_messages-append (decrypt_all c n).0 ms m)

-- The client was sent `before`, then messages that a receiver who starts in the state `c` decrypts
-- to `plain`, and the receiver and the client are in the same state then.
pub record Says (c : Sapphire) (before plain : List Bytes) (client : Client) : Type 0 where
  pub messages : List Bytes
  pub state : Sapphire
  pub appended : client.sent ≡ before ++ messages
  pub decrypted : decrypt_messages c messages ≡ (state, plain)
  pub same : client.cypher ≡ some state

send-Says :
    (c : Sapphire) (before plain : List Bytes) (client : Client) (bytes : Bytes)
    → Says c before plain client
    → Says c before (plain ++ bytes ∷ []) (send bytes client)
unfolding send
send-Says c before plain client bytes h = record {
  messages = h.messages ++ (encrypt_all h.state bytes).1 ∷ [];
  state = (encrypt_all h.state bytes).0;
  appended =
      rw (h.same, h.appended) (append_assoc before h.messages ((encrypt_all h.state bytes).1 ∷ []));
  decrypted =
      rw
        (
          decrypt_messages-append c h.messages (encrypt_all h.state bytes).1,
          h.decrypted,
          decrypt_all-encrypt_all h.state bytes,
        )
        refl;
  same = rw h.same refl;
}

module _ (make_address : Bytes → Option Bytes)
    (get_servers : Game → Bytes → List Bytes → ℕ → List ServerData) where
  -- The entries of the servers in the clear, up to one that cannot be written, and the end of the
  -- list if there is none.
  abbrev pub plain_servers : Game → List Bytes → List ServerData → List Bytes
  plain_servers game fields [] = (0x00 ∷ 0xFF ∷ 0xFF ∷ 0xFF ∷ 0xFF ∷ []) ∷ []
  plain_servers game fields (s ∷ ss) = elim (prepare_server make_address game s fields true) [
    | none ↦ []
    | some bytes ↦ bytes ∷ plain_servers game fields ss
  ]

  -- The answer in the clear: the header, and the servers unless the options or the port forbid it.
  abbrev pub plain_answer : ServerListRequest → Game → Bytes → List Bytes
  plain_answer r game socket_ip =
      get_response_header_bytes r game socket_ip
      ∷ (if has_option r.options Options.no_server_list || game.game_data.query_port == 65535
          then []
          else if has_option r.options Options.send_groups
          then []
          else plain_servers game r.field_list
              (get_servers game r.server_filter r.field_list (result_limit r.limit_result_count)))

  end_list-Says :
      (r : ServerListRequest) (c : Sapphire) (before plain : List Bytes) (client : Client)
      → Says c before plain client
      → Says c before
          (plain ++ (0x00 ∷ 0xFF ∷ 0xFF ∷ 0xFF ∷ 0xFF ∷ []) ∷ [])
          (after_run (end_list make_address get_servers r (returned client)))
  end_list-Says r c before plain client h =
      let ended = send-Says c before plain client (0x00 ∷ 0xFF ∷ 0xFF ∷ 0xFF ∷ 0xFF ∷ []) h in
      elim (Bool-cases (has_option r.options Options.push_updates)) [
        | inl e ↦ rw e (record {
          messages = ended.messages;
          state = ended.state;
          appended = ended.appended;
          decrypted = ended.decrypted;
          same = ended.same;
        })
        | inr e ↦ rw e ended
      ]

  send_servers-Says :
      (r : ServerListRequest) (game : Game) (ss : List ServerData) (c : Sapphire)
      (before plain : List Bytes) (client : Client)
      → Says c before plain client
      → Says c before (plain ++ plain_servers game r.field_list ss) (
          after_run (
            end_list make_address get_servers r
              (send_servers make_address get_servers game r.field_list ss client)))
  unfolding send_servers
  send_servers-Says r game [] c before plain client h = end_list-Says r c before plain client h
  send_servers-Says r game (s ∷ ss) c before plain client h =
      elim (Option-cases (prepare_server make_address game s r.field_list true)) [
        | inl e ↦ rw (e, send_servers, plain_servers, append-nil plain) h
        | inr o ↦
            rw
              (
                o.1,
                send_servers,
                plain_servers,
                sym (append_assoc plain (o.0 ∷ []) (plain_servers game r.field_list ss)),
              )
              (send_servers-Says r game ss c before (plain ++ o.0 ∷ []) (send o.0 client)
                (send-Says c before plain client o.0 h))
      ]

  -- A client whose cypher is in the state `c` is sent the answer in the clear, message by message,
  -- under that cypher: whoever decrypts with a cypher in the state `c` reads the header, and where
  -- the options and the port ask for servers, their entries in order and the end of the list (without
  -- the end, if an entry made the source throw), and the two cyphers are in the same state again.
  pub answer-Says :
      (r : ServerListRequest) (game : Game) (socket_ip : Bytes) (client : Client) (c : Sapphire)
      → client.cypher ≡ some c
      → Says c client.sent
          (plain_answer r game socket_ip)
          (after_run (answer make_address get_servers r game socket_ip client))
  unfolding answer
  answer-Says r game socket_ip client c e =
      let start : Says c client.sent [] client = record {
        messages = [];
        state = c;
        appended = sym (append-nil client.sent);
        decrypted = refl;
        same = e;
      } in
      let header = get_response_header_bytes r game socket_ip in
      let headed = send-Says c client.sent [] client header start in
      elim (Bool-cases
        (has_option r.options Options.no_server_list || game.game_data.query_port == 65535)) [
          | inl e₁ ↦ rw e₁ headed
          | inr e₁ ↦ elim (Bool-cases (has_option r.options Options.send_groups)) [
            | inl e₂ ↦ rw (e₁, e₂) headed
            | inr e₂ ↦
                rw (e₁, e₂)
                  (send_servers-Says r game
                    (get_servers game r.server_filter r.field_list
                      (result_limit r.limit_result_count))
                    c client.sent (header ∷ []) (send header client) headed)
          ]
        ]
