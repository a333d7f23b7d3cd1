-- ===== src/Browser/PushLaws.antt =====
-- `BrowserClient::Process`: the channel of updates, and how many of them are sent.
use gamespy_emulator.Browser.Push.{
  Session, channel_capacity, try_send, Event, fired, update_taken, reader_ended, packet_read,
  update_of, channel_after, process_events,
}
use gamespy_emulator.Browser.Session.{Client, send}
use gamespy_emulator.Game.Data.{Signal, Run, threw, after_run}
use gamespy_emulator.Prelude.{
  ◌≤◌, ◌≡◌, ◌⊎◌, refl, Option, Bytes, List, [], ◌∷◌, ltb, length, length-append, inl, inr,
  Bool-cases, Option-cases, arith,
}

try_send-bounded :
    (bytes : Bytes) (channel : List Bytes)
    → length channel ≤ channel_capacity
    → length (try_send bytes channel) ≤ channel_capacity
unfolding try_send
try_send-bounded bytes channel h = elim (Bool-cases (ltb (length channel) channel_capacity)) [
  | inl place ↦ rw (place, length-append channel (bytes ∷ [])) (ground arith)
  | inr full ↦ rw full h
]

-- The channel holds no more than its capacity, and the client is as it was, or one update was sent
-- to it and an exception ended the loop.
abbrev pub IsUpdated : Client → Run Session → Type 0
IsUpdated client r =
    (length (after_run r).channel ≤ channel_capacity)
    × (((after_run r).client ≡ client)
        ⊎ ((bytes : Bytes) × (s : Session) × (r ≡ threw s) × (s.client ≡ send bytes client)))

module _ (make_address : Bytes → Option Bytes) where
  channel_after-bounded :
      (signal : Signal) (client : Client) (channel : List Bytes)
      → length channel ≤ channel_capacity
      → length (channel_after make_address signal client channel) ≤ channel_capacity
  unfolding channel_after
  channel_after-bounded signal client channel h = elim (Option-cases client.game) [
    | inl n ↦ rw (n, channel_after) h
    | inr (game, g) ↦ elim (Bool-cases client.subscribed) [
      | inr off ↦ rw (g, off, channel_after) h
      | inl on ↦ elim (Option-cases (update_of make_address client.key_list game signal)) [
        | inl n ↦ rw (g, on, n, channel_after) h
        | inr (bytes, u) ↦ rw (g, on, u, channel_after) (try_send-bounded bytes channel h)
      ]
    ]
  ]

  -- Whatever signals are fired, updates taken and packets read behind the first request: at most
  -- ten updates wait, and at most one is ever sent, after which the loop ends with an exception.
  pub process_events-IsUpdated :
      (es : List Event) (client : Client) (channel : List Bytes)
      → length channel ≤ channel_capacity
      → IsUpdated client
          (process_events make_address es (record { client = client; channel = channel }))
  unfolding process_events
  process_events-IsUpdated [] client channel h = (h, inl refl)
  process_events-IsUpdated (fired signal ∷ es) client channel h =
      process_events-IsUpdated es client (channel_after make_address signal client channel)
        (channel_after-bounded signal client channel h)
  process_events-IsUpdated (update_taken ∷ es) client [] h = process_events-IsUpdated es client [] h
  process_events-IsUpdated (update_taken ∷ es) client (bytes ∷ channel) h =
      (omega arith, inr (bytes, _, refl, refl))
  process_events-IsUpdated (packet_read p ∷ es) client channel h =
      process_events-IsUpdated es client channel h
  process_events-IsUpdated (reader_ended ∷ es) client channel h = (h, inl refl)
