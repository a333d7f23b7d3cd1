-- ===== src/Browser/Push.antt =====
-- `BrowserClient`: the two signals of a game, the channel of updates, and the loop of `Process`, of
-- emulator/ms.client.cpp. The reader is that of `Reader`; here its packets arrive one by one.
use gamespy_emulator.Browser.Reader.{Packet}
use gamespy_emulator.Browser.Response.{short_bytes, prepare_server}
use gamespy_emulator.Browser.Session.{Client, send, handle_server_list_request}
use gamespy_emulator.Game.Data.{
  Game, ServerData, Signal, server_added, server_removed, Run, returned, threw,
}
use gamespy_emulator.Prelude.{
  ℕ, false, Option, none, some, Bytes, List, [], ◌∷◌, ◌++◌, if◌then◌else◌, ◌==◌, ltb, length,
}

-- The client, and the updates that wait in `m_SignalChannel`.
pub record Session : Type 0 where
  pub client : Client
  pub channel : List Bytes

-- The capacity of the channel.
abbrev pub channel_capacity : ℕ
channel_capacity = 10

-- `try_send`: an update for which there is no place is lost.
unfoldable pub try_send : Bytes → List Bytes → List Bytes
try_send bytes channel =
    if ltb (length channel) channel_capacity then channel ++ bytes ∷ [] else channel

-- What may happen behind the first request: a signal is fired, an update is taken from the channel,
-- a packet is read, or the reader ends.
pub data Event : Type 0 where
  fired : Signal → Event
  update_taken reader_ended : Event
  packet_read : Packet → Event

module _ (make_address : Bytes → Option Bytes) where
  -- `PUSH_SERVER_MESSAGE`
  abbrev pub added_message : Option Bytes → Option Bytes
  added_message none = none
  added_message (some bytes) = some (0x02 ∷ (short_bytes (length bytes) ++ bytes))

  -- `DELETE_SERVER_MESSAGE`
  abbrev pub removed_message : ℕ → Option Bytes → Option Bytes
  removed_message port none = none
  removed_message port (some address) = some (0x04 ∷ 0 ∷ 6 ∷ (address ++ short_bytes port))

  -- The update of a signal; none where it throws into the game that fires it.
  unfoldable pub update_of : List Bytes → Game → Signal → Option Bytes
  update_of key_list game (server_added server) =
      added_message (prepare_server make_address game server key_list false)
  update_of key_list game (server_removed ip port) = removed_message port (make_address ip)

  abbrev pub put_update : Option Bytes → List Bytes → List Bytes
  put_update none channel = channel
  put_update (some bytes) channel = try_send bytes channel

  -- A signal reaches a client that subscribed.
  unfoldable pub channel_after : Signal → Client → List Bytes → List Bytes
  channel_after signal client channel = elim client.game [
    | none ↦ channel
    | some game ↦
        if client.subscribed
        then put_update (update_of client.key_list game signal) channel
        else channel
  ]

  -- An update is sent; then the loop goes on to the alternative of the packet, which the variant
  -- does not hold, and that throws.
  abbrev pub take_update : Client → List Bytes → Run Session
  take_update client [] = returned (record { client = client; channel = [] })
  take_update client (bytes ∷ channel) =
      threw (record { client = send bytes client; channel = channel })

  -- The loop of `Process`.
  unfoldable pub process_events : List Event → Session → Run Session
  process_events [] s = returned s
  process_events (fired signal ∷ es) s =
      process_events es (record s { channel = channel_after signal s.client s.channel })
  process_events (update_taken ∷ es) s = elim (take_update s.client s.channel) [
    | threw s' ↦ threw s'
    | returned s' ↦ process_events es s'
  ]
  process_events (packet_read p ∷ es) s = process_events es s
  process_events (reader_ended ∷ es) s = returned s

  abbrev pub then_events : List Event → Run Client → Run Session
  then_events es (threw client) = threw (record { client = client; channel = [] })
  then_events es (returned client) =
      if client.is_open
      then process_events es (record { client = client; channel = [] })
      else returned (record { client = client; channel = [] })

  -- `Process`, with the first packet, if there is one.
  unfoldable pub process :
      (Game → Bytes → List Bytes → ℕ → List ServerData)
      → List Game
      → Bytes
      → Bytes
      → Bytes
      → Option Packet
      → List Event
      → Client
      → Run Session
  process get_servers games socket_ip crypt_key server_challenge none es client =
      returned (record { client = client; channel = [] })
  process get_servers games socket_ip crypt_key server_challenge (some p) es client =
      if p.type == 0
      then then_events es (
          handle_server_list_request make_address get_servers games socket_ip crypt_key
            server_challenge p.content client)
      else returned (record { client = client; channel = [] })
